-- ===== src/Sync/Reports/Marked.antt =====
-- Which reports of the server's history are stored and marked as synced.
use mathlib.Core.List.{append-nil}
use foodler.Common.{
  ℕ, suc, ◌≡◌, refl, sym, ap, ◌∙◌, true, false, ◌||◌, Option, none, some, List, [], ◌∷◌, ◌++◌, any,
  All, arith, Bool-cases, inl, inr, or_else,
}
use foodler.Text.{Text, text_eq, is_empty}
use foodler.Text.Laws.{text_eq_iff, text_eq_refl}
use foodler.Json.{Json}
use foodler.Keys.{HasDistinctKeys}
use foodler.Ai.Types.{AiSection}
use foodler.Ai.Sections.{parse_server_sections}
use foodler.Ai.Sections.Ends.{IsShortening, parse_server_sections-recursion}
use foodler.Ai.Reports.{trim_excess}
use foodler.Sync.Ids.{answered, has, is_authenticated}
use foodler.Sync.Reports.{
  ServerReport, ReportStore, get_synced_ai_ids, mark_ai_as_synced, save_report, save_reports,
  sync_ai_reports,
}
use foodler.Sync.Reports.Saved.{
  has-mark, rows_with, save_report-fresh, save_report-stored, IsFresh-rest, unsynced, is_stored,
  IsFresh,
}

module _ (parse : Text → Option Json) (stringify show : Json → Text) (clock : ℕ → ℕ)
    (fresh : ℕ → Text) where
  -- The loop ends with these identifiers marked besides those from before.
  abbrev Marks : ReportStore → List ServerReport → Option ReportStore → Type 0
  Marks store srs outcome =
      (after : ReportStore) × ((outcome ≡ some after)
        × ((id : Text)
            → has id (get_synced_ai_ids after)
              ≡ (has id (get_synced_ai_ids store) || any (λ sr. text_eq sr.id id) srs)))

  save_reports-next :
      (synced : List Text) (n : ℕ) (sr : ServerReport) (srs : List ServerReport)
      (sections : List AiSection) (store : ReportStore)
      → has sr.id synced ≡ false
      → parse_server_sections parse stringify show (or_else sr.sections []) ≡ some sections
      → IsFresh store.reports sr
      → save_reports parse stringify show clock fresh synced n (sr ∷ srs) store
        ≡ save_reports parse stringify show clock fresh synced (suc n) srs (
            mark_ai_as_synced sr.id
              (record store { reports = rows_with clock fresh n sr sections store.reports }))
  unfolding save_reports
  save_reports-next synced n sr srs sections store new p f =
      rw (new, p, save_report-fresh clock fresh parse stringify show n sr sections store f) refl

  save_reports-Marks :
      IsShortening parse
      → (synced : List Text) (n : ℕ) (srs : List ServerReport) (store : ReportStore)
      → HasDistinctKeys (λ (sr : ServerReport). sr.id) (unsynced synced srs)
      → All (IsFresh store.reports) (unsynced synced srs)
      → Marks store
          (unsynced synced srs)
          (save_reports parse stringify show clock fresh synced n srs store)
  unfolding save_reports mark_ai_as_synced trim_excess
  save_reports-Marks shorter synced n [] store d f = (store, (refl, (λ id. ground arith)))
  save_reports-Marks shorter synced n (sr ∷ srs) store d f = elim (Bool-cases (has sr.id synced)) [
    | inl old ↦ rw old (save_reports-Marks shorter synced n srs store (rw old at d) (rw old at f))
    | inr new ↦
        let (sections, parsed) =
          (parse_server_sections-recursion parse stringify show shorter
            (or_else sr.sections [])).0 in
        let (distinct, ds) = rw new at d in
        let (f0, fs) = rw new at f in
        let next : ReportStore =
          mark_ai_as_synced sr.id
            (record store { reports = rows_with clock fresh n sr sections store.reports }) in
        let (after, (e, marked)) = save_reports-Marks shorter synced (suc n) srs next ds (
          IsFresh-rest clock fresh n sr sections store.reports (unsynced synced srs) f0.0 distinct
            fs) in
        (
          after,
          (
            save_reports-next synced n sr srs sections store new parsed f0 ∙ e,
            λ id. marked id ∙ rw (has-mark sr.id id store, new) (ground arith),
          ),
        )
  ]

  save_reports-skip :
      (synced : List Text) (n : ℕ) (seen srs : List ServerReport) (store : ReportStore)
      → All (λ sr. has sr.id synced ≡ true) seen
      → save_reports parse stringify show clock fresh synced n (seen ++ srs) store
        ≡ save_reports parse stringify show clock fresh synced n srs store
  unfolding save_reports
  save_reports-skip synced n [] srs store h = refl
  save_reports-skip synced n (sr ∷ seen) srs store (p, h) =
      rw p (save_reports-skip synced n seen srs store h)

  save_reports-thrown :
      (synced : List Text) (n : ℕ) (sr : ServerReport) (srs : List ServerReport)
      (sections : List AiSection) (store : ReportStore)
      → has sr.id synced ≡ false
      → parse_server_sections parse stringify show (or_else sr.sections []) ≡ some sections
      → save_report parse stringify show clock fresh n sr sections store ≡ none
      → save_reports parse stringify show clock fresh synced n (sr ∷ srs) store ≡ some store
  unfolding save_reports
  save_reports-thrown synced n sr srs sections store new p e = rw (new, p, e) refl

  -- Each listed report is marked.
  listed-marked :
      (before after : List Text) (srs : List ServerReport)
      → ((id : Text)
          → has id after ≡ (has id before || any (λ sr. text_eq sr.id id) (unsynced before srs)))
      → (id : Text) → has id after ≡ (has id before || any (λ sr. text_eq sr.id id) srs)
  listed-marked before after srs h id = h id ∙ same srs
    where
      same :
          (srs : List ServerReport)
          → (has id before || any (λ sr. text_eq sr.id id) (unsynced before srs))
            ≡ (has id before || any (λ sr. text_eq sr.id id) srs)
      same [] = refl
      same (sr ∷ srs) = elim (Bool-cases (text_eq sr.id id)) [
        | inl e ↦
            let at_id = ap (λ i. has i before) ((text_eq_iff sr.id id).0 e) in
            ground (arith, same srs)
        | inr d ↦ ground (arith, same srs)
      ]

  each-marked :
      (ids : List Text) (srs : List ServerReport)
      → ((id : Text) → any (λ sr. text_eq sr.id id) srs ≡ true → has id ids ≡ true)
      → All (λ (sr : ServerReport). has sr.id ids ≡ true) srs
  each-marked ids [] h = tt
  each-marked ids (sr ∷ srs) h =
      (h sr.id (rw (text_eq_refl sr.id) refl), each-marked ids srs (λ id p. h id (ground arith)))

  -- While the user is signed in and the server answers its history, in which the reports that are not
  -- marked yet have identifiers that are not empty, differ and are not in the table: the loop ends,
  -- exactly the listed identifiers are marked besides the ones from before, and the same history
  -- again changes nothing. Nested sections are read by a parser whose strings are shorter than their
  -- text.
  pub sync_ai_reports-settles :
      IsShortening parse
      → (token : Option Text) (srs : List ServerReport) (store : ReportStore)
      → is_authenticated token ≡ true
      → HasDistinctKeys (λ (sr : ServerReport). sr.id) (unsynced (get_synced_ai_ids store) srs)
      → All (IsFresh store.reports) (unsynced (get_synced_ai_ids store) srs)
      → (after : ReportStore) × (sync_ai_reports parse stringify show clock fresh token
            (answered srs)
            store
          ≡ some after)
        × ((id : Text)
            → has id (get_synced_ai_ids after)
              ≡ (has id (get_synced_ai_ids store) || any (λ sr. text_eq sr.id id) srs))
        × (sync_ai_reports parse stringify show clock fresh token (answered srs) after ≡ some after)
  unfolding sync_ai_reports
  sync_ai_reports-settles shorter token srs store auth d f =
      let ids = get_synced_ai_ids store in
      let (after, (e, m)) = save_reports-Marks shorter ids 0 srs store d f in
      let marked = listed-marked ids (get_synced_ai_ids after) srs m in
      let every =
        each-marked (get_synced_ai_ids after) srs (λ id p. marked id ∙ rw p (ground arith)) in
      (
        after,
        rw auth e,
        marked,
        rw auth (
            ap
              (λ rs.
                save_reports parse stringify show clock fresh (get_synced_ai_ids after) 0 rs after)
              (sym (append-nil srs))
            ∙ save_reports-skip (get_synced_ai_ids after) 0 srs [] after every
            ∙ unfold save_reports in refl),
      )

  -- A listed report that is stored but not marked blocks the synchronisation: nothing is saved and
  -- nothing is marked, whatever the history lists after it, when all before it are marked and its
  -- sections can be read.
  pub stored_report-blocks :
      IsShortening parse
      → (token : Option Text) (seen later : List ServerReport) (sr : ServerReport)
        (store : ReportStore)
      → All (λ s. has s.id (get_synced_ai_ids store) ≡ true) seen
      → has sr.id (get_synced_ai_ids store) ≡ false
      → is_empty sr.id ≡ false
      → is_stored sr.id store.reports ≡ true
      → sync_ai_reports parse stringify show clock fresh token (answered (seen ++ sr ∷ later)) store
        ≡ some store
  unfolding sync_ai_reports
  stored_report-blocks shorter token seen later sr store old new e stored =
      let (sections, parsed) =
        (parse_server_sections-recursion parse stringify show shorter (or_else sr.sections [])).0 in
      let stops =
        save_reports-skip (get_synced_ai_ids store) 0 seen (sr ∷ later) store old
        ∙ save_reports-thrown (get_synced_ai_ids store) 0 sr later sections store new parsed
            (save_report-stored clock fresh parse stringify show 0 sr sections store e stored) in
      elim (Bool-cases (is_authenticated token)) [ inl a ↦ rw a stops | inr a ↦ rw a refl ]
