-- ===== src/Sync/Reports/Total.antt =====
-- The synchronisation of reports ends, whatever the history and the table.
use foodler.Common.{
  ℕ, suc, ◌≡◌, refl, Option, some, List, [], ◌∷◌, Bool-cases, Option-cases, inl, inr, or_else,
}
use foodler.Text.{Text}
use foodler.Json.{Json}
use foodler.Ai.Sections.Ends.{IsShortening, parse_server_sections-recursion}
use foodler.Sync.Ids.{Answer, answered, thrown, has, is_authenticated}
use foodler.Sync.Reports.{
  ServerReport, ReportStore, get_synced_ai_ids, save_report, save_reports, sync_ai_reports,
}

module _ (parse : Text → Option Json) (stringify show : Json → Text) (clock : ℕ → ℕ)
    (fresh : ℕ → Text) where
  save_reports-total :
      IsShortening parse
      → (synced : List Text) (n : ℕ) (srs : List ServerReport) (store : ReportStore)
      → (after : ReportStore) × (save_reports parse stringify show clock fresh synced n srs store
          ≡ some after)
  unfolding save_reports
  save_reports-total shorter synced n [] store = (store, refl)
  save_reports-total shorter synced n (sr ∷ srs) store = elim (Bool-cases (has sr.id synced)) [
    | inl old ↦ let (after, e) = save_reports-total shorter synced n srs store in (after, rw old e)
    | inr new ↦
        let (sections, parsed) =
          (parse_server_sections-recursion parse stringify show shorter
            (or_else sr.sections [])).0 in
        elim (Option-cases (save_report parse stringify show clock fresh n sr sections store)) [
          | inl thrown_away ↦ (store, rw (new, parsed, thrown_away) refl)
          | inr (next, saved) ↦
              let (after, e) = save_reports-total shorter synced (suc n) srs next in
              (after, rw (new, parsed, saved) e)
        ]
  ]

  -- With such a parser the synchronisation of reports ends.
  pub sync_ai_reports-total :
      IsShortening parse
      → (token : Option Text) (history : Answer (List ServerReport)) (store : ReportStore)
      → (after : ReportStore) × (sync_ai_reports parse stringify show clock fresh token history
            store
          ≡ some after)
  unfolding sync_ai_reports
  sync_ai_reports-total shorter token (thrown error) store = (store, refl)
  sync_ai_reports-total shorter token (answered srs) store =
      elim (Bool-cases (is_authenticated token)) [
        | inl on ↦
            let (after, e) = save_reports-total shorter (get_synced_ai_ids store) 0 srs store in
            (after, rw on e)
        | inr off ↦ (store, rw off refl)
      ]
