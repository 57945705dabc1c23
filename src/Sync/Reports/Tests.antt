-- ===== src/Sync/Reports/Tests.antt =====
-- Runs of `syncAiReports` of mobile/src/api/sync.ts: a history of two reports, and one report that
-- the device stored when the assistant made it.
use foodler.Common.{ℕ, ◌≡◌, refl, ◌||◌, Option, none, some, List, [], ◌∷◌, ◌++◌, any}
use foodler.Text.{Text, codes, text_eq}
use foodler.Json.{Json}
use foodler.Ai.Types.{recipe}
use foodler.Ai.Sections.Ends.{IsShortening}
use foodler.Ai.Reports.{new_report}
use foodler.Sync.Ids.{answered, has, parse_stored_ids}
use foodler.Sync.Reports.{
  ServerReport, ReportStore, get_synced_ai_ids, empty_snapshot, synced_result, sync_ai_reports,
}
use foodler.Sync.Reports.Marked.{sync_ai_reports-settles, stored_report-blocks}

abbrev no_parse : Text → Option Json
no_parse t = none

abbrev no_text : Json → Text
no_text v = []

no_parse-IsShortening : IsShortening no_parse
no_parse-IsShortening t items h = absurd cc

abbrev ticks : ℕ → ℕ
ticks n = n

abbrev made_up : ℕ → Text
made_up n = codes "f"

abbrev token : Option Text
token = some (codes "token")

abbrev report : Text → ServerReport
report id = record { id = id; action = codes "recipes"; sections = none }

abbrev history : List ServerReport
history = report (codes "a") ∷ report (codes "b") ∷ []

abbrev empty_store : ReportStore
empty_store = record { reports = []; synced_ids = none }

sync_ai_reports-settles_example :
    (after : ReportStore) × (sync_ai_reports no_parse no_text no_text ticks made_up token
        (answered history)
        empty_store
      ≡ some after)
    × ((id : Text)
        → has id (get_synced_ai_ids after)
          ≡ (has id (get_synced_ai_ids empty_store) || any (λ sr. text_eq sr.id id) history))
    × (sync_ai_reports no_parse no_text no_text ticks made_up token (answered history) after
        ≡ some after)
unfolding parse_stored_ids text_eq
sync_ai_reports-settles_example =
    sync_ai_reports-settles no_parse no_text no_text ticks made_up no_parse-IsShortening token
      history empty_store refl (refl, (refl, tt)) ((refl, refl), ((refl, refl), tt))

-- The report "a", as the assistant's screen stored it; the history lists it first.
abbrev generated : ReportStore
generated = record {
  reports =
      new_report 1 (codes "f") recipe empty_snapshot (synced_result (report (codes "a")) []) ∷ [];
  synced_ids = none;
}

stored_report-blocks_example :
    sync_ai_reports no_parse no_text no_text ticks made_up token
      (answered ([] ++ report (codes "a") ∷ report (codes "b") ∷ []))
      generated
    ≡ some generated
unfolding parse_stored_ids text_eq synced_result
stored_report-blocks_example =
    stored_report-blocks no_parse no_text no_text ticks made_up no_parse-IsShortening token []
      (report (codes "b") ∷ []) (report (codes "a")) generated tt refl refl refl
