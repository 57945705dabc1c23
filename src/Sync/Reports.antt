-- ===== src/Sync/Reports.antt =====
-- `syncAiReports` of mobile/src/api/sync.ts over the table of mobile/src/ai/storage.ts. `clock` and
-- `fresh` are the time and the made-up identifier at each report that is saved, in order.
pub mod Saved
pub mod Marked
pub mod Total
mod Tests
use foodler.Common.{
  ℕ, zero, suc, ◌+◌, Bool, true, false, not, Option, none, some, List, [], ◌∷◌, any, or_else,
  if◌then◌else◌,
}
use foodler.Text.{Text, text_eq}
use foodler.Json.{Json, Raw}
use foodler.Ai.Types.{
  AiActionType, analysis, action_to_server, actions, action_label, AiReport, AiReportSnapshot,
  AiResult, AiSection,
}
use foodler.Ai.Sections.{parse_server_sections}
use foodler.Ai.Reports.{save_ai_report}
use foodler.Sync.Ids.{
  Answer, answered, thrown, has, add, parse_stored_ids, ids_json, is_authenticated,
}

-- A report in the server's history.
pub record ServerReport : Type 0 where
  pub id : Text
  pub action : Text
  pub sections : Option (List Json)

-- The table of reports and the key of AsyncStorage.
pub record ReportStore : Type 0 where
  pub reports : List AiReport
  pub synced_ids : Raw

abbrev pub get_synced_ai_ids : ReportStore → List Text
get_synced_ai_ids store = parse_stored_ids store.synced_ids

unfoldable pub mark_ai_as_synced : Text → ReportStore → ReportStore
mark_ai_as_synced id store = record store {
  synced_ids = ids_json (add id (get_synced_ai_ids store));
}

abbrev find_action : Text → List AiActionType → AiActionType
find_action action [] = analysis
find_action action (a ∷ rest) =
    let later = find_action action rest in if text_eq (action_to_server a) action then a else later

unfoldable pub local_action : Text → AiActionType
local_action action = find_action action actions

abbrev pub empty_snapshot : AiReportSnapshot
empty_snapshot = record {
  receipt_count = 0;
  period_from = none;
  period_to = none;
  total_spent = none;
  receipt_ids = [];
}

unfoldable pub synced_result : ServerReport → List AiSection → AiResult
unfolding action_label local_action
synced_result sr sections = record {
  id = sr.id;
  action = local_action sr.action;
  title = action_label (local_action sr.action);
  summary = [];
  sections = sections;
}

module _ (parse : Text → Option Json) (stringify show : Json → Text) (clock : ℕ → ℕ)
    (fresh : ℕ → Text) where
  -- The body of the loop: the report's sections; the table after its insertion, which may throw.
  unfoldable pub save_report : ℕ → ServerReport → List AiSection → ReportStore → Option ReportStore
  unfolding save_ai_report mark_ai_as_synced
  save_report n sr sections store =
      elim (save_ai_report (clock n) (fresh n) (local_action sr.action) empty_snapshot
        (synced_result sr sections) store.reports) [
          | none ↦ none
          | some rows ↦ some (mark_ai_as_synced sr.id (record store { reports = rows }))
        ]

  abbrev stop_or :
      ReportStore → Option ReportStore → (ReportStore → Option ReportStore) → Option ReportStore
  stop_or store none next = some store
  stop_or store (some after) next = next after

  -- The loop, of the identifiers that were synced before it: `none` where the sections' fuel is
  -- spent. A report that cannot be saved ends the loop, which is caught.
  unfoldable pub save_reports : List Text → ℕ → List ServerReport → ReportStore → Option ReportStore
  save_reports synced n [] store = some store
  save_reports synced n (sr ∷ srs) store =
      let skip = save_reports synced n srs store in
      let next = save_reports synced (suc n) srs in
      if has sr.id synced
      then skip
      else elim (parse_server_sections parse stringify show (or_else sr.sections [])) [
        | none ↦ none
        | some sections ↦ stop_or store (save_report n sr sections store) next
      ]

  unfoldable pub sync_ai_reports :
      Option Text → Answer (List ServerReport) → ReportStore → Option ReportStore
  unfolding save_reports
  sync_ai_reports token (thrown error) store = some store
  sync_ai_reports token (answered srs) store =
      if not (is_authenticated token)
      then some store
      else save_reports (get_synced_ai_ids store) 0 srs store
