-- ===== src/Sync/Reports/Saved.antt =====
-- What the body of the loop over the server's reports does to the table and the marks.
use foodler.Common.{
  ℕ, ◌≡◌, refl, ap, ◌∙◌, Bool, true, false, ◌||◌, not, Option, none, some, List, [], ◌∷◌, ◌++◌, any,
  select, All, arith,
}
use foodler.Text.{Text, text_eq, is_empty}
use foodler.Json.{Json}
use foodler.Keys.{any-append, any-select-false, text_eq_comm}
use foodler.Ai.Types.{AiReport, AiSection}
use foodler.Ai.Reports.{insert_report, trim_excess, new_report, trimmed, save_ai_report}
use foodler.Sync.Ids.{has, add}
use foodler.Sync.Ids.Laws.{
  has-add, add-IsIdSet, parse_stored_ids-IsIdSet, parse_stored_ids-ids_json,
}
use foodler.Sync.Reports.{
  ServerReport, ReportStore, get_synced_ai_ids, mark_ai_as_synced, synced_result, local_action,
  empty_snapshot, save_report,
}

-- The reports that the loop does not skip.
abbrev pub unsynced : List Text → List ServerReport → List ServerReport
unsynced ids srs = select (λ sr. not (has sr.id ids)) srs

abbrev pub is_stored : Text → List AiReport → Bool
is_stored id rows = any (λ r. text_eq r.id id) rows

-- The report has an identifier that no row has.
abbrev pub IsFresh : List AiReport → ServerReport → Type 0
IsFresh rows sr = (is_empty sr.id ≡ false) × (is_stored sr.id rows ≡ false)

pub has-mark :
    (id other : Text) (store : ReportStore)
    → has other (get_synced_ai_ids (mark_ai_as_synced id store))
      ≡ (has other (get_synced_ai_ids store) || text_eq id other)
unfolding mark_ai_as_synced
has-mark id other store =
    ap (has other) (
      parse_stored_ids-ids_json (add id (get_synced_ai_ids store))
        (add-IsIdSet id (get_synced_ai_ids store) (parse_stored_ids-IsIdSet store.synced_ids)))
    ∙ has-add id other (get_synced_ai_ids store)

insert_report-fresh :
    (r : AiReport) (rows : List AiReport)
    → is_stored r.id rows ≡ false
    → insert_report r rows ≡ some (rows ++ r ∷ [])
unfolding insert_report
insert_report-fresh r rows h = rw h refl

insert_report-stored :
    (r : AiReport) (rows : List AiReport) → is_stored r.id rows ≡ true → insert_report r rows ≡ none
unfolding insert_report
insert_report-stored r rows h = rw h refl

-- The report is marked where it was saved.
abbrev marked_if : ServerReport → ReportStore → Option (List AiReport) → Option ReportStore
marked_if sr store saved = elim saved [
  | none ↦ none
  | some rows ↦ some (mark_ai_as_synced sr.id (record store { reports = rows }))
]

module _ (clock : ℕ → ℕ) (fresh : ℕ → Text) where
  -- The table after a report is saved.
  abbrev pub rows_with : ℕ → ServerReport → List AiSection → List AiReport → List AiReport
  rows_with n sr sections rows = trim_excess 25 (
      rows
      ++ new_report (clock n) (fresh n) (local_action sr.action) empty_snapshot
          (synced_result sr sections)
        ∷ [])

  pub rows_with-others :
      (n : ℕ) (sr : ServerReport) (sections : List AiSection) (rows : List AiReport) (id : Text)
      → is_empty sr.id ≡ false
      → text_eq sr.id id ≡ false
      → is_stored id rows ≡ false
      → is_stored id (rows_with n sr sections rows) ≡ false
  unfolding trim_excess synced_result
  rows_with-others n sr sections rows id e d h =
      any-select-false (λ r. text_eq r.id id) _ _
        (any-append (λ r. text_eq r.id id) rows _ ∙ rw (h, e) (ground arith))

  taken :
      (n : ℕ) (sr : ServerReport) (sections : List AiSection) (rows : List AiReport)
      → is_empty sr.id ≡ false
      → is_stored
          (new_report
            (clock n)
            (fresh n)
            (local_action sr.action)
            empty_snapshot
            (synced_result sr sections)).id
          rows
        ≡ is_stored sr.id rows
  unfolding synced_result
  taken n sr sections rows e = rw e refl

  pub save_report-fresh :
      (parse : Text → Option Json) (stringify show : Json → Text) (n : ℕ) (sr : ServerReport)
      (sections : List AiSection) (store : ReportStore)
      → IsFresh store.reports sr
      → save_report parse stringify show clock fresh n sr sections store
        ≡ some (
            mark_ai_as_synced sr.id
              (record store { reports = rows_with n sr sections store.reports }))
  unfolding save_report save_ai_report
  save_report-fresh parse stringify show n sr sections store (e, h) =
      ap (λ after. marked_if sr store (trimmed after))
        (insert_report-fresh _ store.reports (taken n sr sections store.reports e ∙ h))

  pub save_report-stored :
      (parse : Text → Option Json) (stringify show : Json → Text) (n : ℕ) (sr : ServerReport)
      (sections : List AiSection) (store : ReportStore)
      → is_empty sr.id ≡ false
      → is_stored sr.id store.reports ≡ true
      → save_report parse stringify show clock fresh n sr sections store ≡ none
  unfolding save_report save_ai_report
  save_report-stored parse stringify show n sr sections store e h =
      ap (λ after. marked_if sr store (trimmed after))
        (insert_report-stored _ store.reports (taken n sr sections store.reports e ∙ h))

-- What is saved leaves the other reports that are to be saved fresh.
pub IsFresh-rest :
    (clock : ℕ → ℕ) (fresh : ℕ → Text) (n : ℕ) (sr : ServerReport) (sections : List AiSection)
    (rows : List AiReport) (srs : List ServerReport)
    → is_empty sr.id ≡ false
    → any (λ s. text_eq s.id sr.id) srs ≡ false
    → All (IsFresh rows) srs
    → All (IsFresh (rows_with clock fresh n sr sections rows)) srs
IsFresh-rest clock fresh n sr sections rows [] e d h = tt
IsFresh-rest clock fresh n sr sections rows (s ∷ srs) e d ((p, q), h) = (
  (
    p,
    rows_with-others clock fresh n sr sections rows s.id e (text_eq_comm sr.id s.id ∙ ground arith)
        q,
  ),
  IsFresh-rest clock fresh n sr sections rows srs e (ground arith) h,
)
