-- ===== src/Ai/Reports.antt =====
-- mobile/src/ai/storage.ts over the statements of mobile/src/ai/reportQueries.ts, one definition
-- each. The columns `snapshot` and `response` hold what `JSON.stringify` wrote, which `JSON.parse`
-- reads back, so a row is the report itself. `now` is `Date.now()`.
pub mod Pinned
pub mod Limit
pub mod Refined
use foodler.Common.{
  ℕ, ◌+◌, ◌-◌, ◌*◌, Bool, true, false, ◌&&◌, ◌||◌, not, Option, none, some, List, [], ◌∷◌, ◌++◌,
  map, any, select, take, ltb, leb, if◌then◌else◌,
}
use foodler.Text.{Text, text_eq, is_empty}
use foodler.Storage.Database.{order_by}
use foodler.Ai.Types.{AiActionType, AiReport, AiReportSnapshot, AiResult}

abbrev pub max_reports : ℕ
max_reports = 30

abbrev pub max_age_days : ℕ
max_age_days = 30

-- INSERT: `none` where the primary key is taken, which SQLite answers by an error.
unfoldable pub insert_report : AiReport → List AiReport → Option (List AiReport)
insert_report report rows =
    if any (λ r. text_eq r.id report.id) rows then none else some (rows ++ report ∷ [])

-- ORDER BY pinned DESC, createdAt DESC
abbrev pub report_before : AiReport → AiReport → Bool
report_before r s =
    (r.pinned && not s.pinned) || (not (not r.pinned && s.pinned) && leb s.created_at r.created_at)

unfoldable pub select_all : ℕ → List AiReport → List AiReport
unfolding order_by
select_all limit rows = take limit (order_by report_before rows)

abbrev pub select_by_id : Text → List AiReport → List AiReport
select_by_id id rows = select (λ r. text_eq r.id id) rows

unfoldable pub update_pinned : Bool → Text → List AiReport → List AiReport
update_pinned pinned id rows =
    map (λ r. if text_eq r.id id then record r { pinned = pinned } else r) rows

unfoldable pub delete_by_id : Text → List AiReport → List AiReport
delete_by_id id rows = select (λ r. not (text_eq r.id id)) rows

unfoldable pub delete_expired : ℕ → List AiReport → List AiReport
delete_expired cutoff rows = select (λ r. r.pinned || not (ltb r.created_at cutoff)) rows

abbrev pub newer : AiReport → AiReport → Bool
newer r s = leb s.created_at r.created_at

-- The inner SELECT of trimExcess.
unfoldable pub kept_ids : ℕ → List AiReport → List Text
unfolding order_by
kept_ids limit rows =
    map (λ r. r.id) (take limit (order_by newer (select (λ r. not r.pinned) rows)))

unfoldable pub trim_excess : ℕ → List AiReport → List AiReport
unfolding kept_ids
trim_excess limit rows =
    let kept = kept_ids limit rows in select (λ r. r.pinned || any (λ k. text_eq k r.id) kept) rows

abbrev pub trim_excess_reports : List AiReport → List AiReport
trim_excess_reports rows = trim_excess (max_reports - 5) rows

-- Times before the epoch do not occur, so a cutoff below it deletes nothing.
unfoldable pub cleanup_old_reports : ℕ → List AiReport → List AiReport
unfolding delete_expired
cleanup_old_reports now rows = delete_expired (now - max_age_days * 24 * 60 * 60 * 1000) rows

unfoldable pub init_ai_reports_table : ℕ → List AiReport → List AiReport
unfolding cleanup_old_reports
init_ai_reports_table now rows = cleanup_old_reports now rows

-- The report that `saveAiReport` writes; `fresh` is the identifier that it makes up.
abbrev pub new_report : ℕ → Text → AiActionType → AiReportSnapshot → AiResult → AiReport
new_report now fresh action snapshot response = record {
  id = if is_empty response.id then fresh else response.id;
  action = action;
  created_at = now;
  snapshot = snapshot;
  response = response;
  pinned = false;
}

abbrev pub trimmed : Option (List AiReport) → Option (List AiReport)
trimmed none = none
trimmed (some rows) = some (trim_excess_reports rows)

-- The table after the call; `none` where the insertion throws. The call returns `new_report`.
unfoldable pub save_ai_report :
    ℕ → Text → AiActionType → AiReportSnapshot → AiResult → List AiReport → Option (List AiReport)
unfolding insert_report trim_excess
save_ai_report now fresh action snapshot response rows =
    trimmed (insert_report (new_report now fresh action snapshot response) rows)

unfoldable pub load_ai_reports : List AiReport → List AiReport
unfolding select_all
load_ai_reports rows = select_all max_reports rows

abbrev pub first : List AiReport → Option AiReport
first [] = none
first (r ∷ rows) = some r

unfoldable pub get_ai_report : Text → List AiReport → Option AiReport
get_ai_report id rows = first (select_by_id id rows)

unfoldable pub toggle_pin_report : Text → Bool → List AiReport → List AiReport
unfolding update_pinned
toggle_pin_report id pinned rows = update_pinned pinned id rows

unfoldable pub delete_ai_report : Text → List AiReport → List AiReport
unfolding delete_by_id
delete_ai_report id rows = delete_by_id id rows

-- The calls that change the table. One that throws leaves it as it was.
pub data ReportCall : Type 0 where
  saves : ℕ → Text → AiActionType → AiReportSnapshot → AiResult → ReportCall
  toggles : Text → Bool → ReportCall
  deletes : Text → ReportCall
  inits : ℕ → ReportCall

abbrev pub unless_thrown : List AiReport → Option (List AiReport) → List AiReport
unless_thrown rows none = rows
unless_thrown rows (some after) = after

unfoldable pub call : ReportCall → List AiReport → List AiReport
unfolding save_ai_report toggle_pin_report delete_ai_report init_ai_reports_table
call (saves now fresh action snapshot response) rows =
    unless_thrown rows (save_ai_report now fresh action snapshot response rows)
call (toggles id pinned) rows = toggle_pin_report id pinned rows
call (deletes id) rows = delete_ai_report id rows
call (inits now) rows = init_ai_reports_table now rows

abbrev pub call_all : List ReportCall → List AiReport → List AiReport
call_all [] rows = rows
call_all (c ∷ cs) rows = call_all cs (call c rows)
