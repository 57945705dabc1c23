-- ===== src/Ai/Reports/Limit.antt =====
-- The limit on unpinned reports, and what it never removes: pinned reports and the newest one.
use mathlib.Core.List.{append-nil}
use foodler.Common.{
  ℕ, zero, suc, ◌+◌, ◌≤◌, ◌<◌, ◌≡◌, refl, ap, ◌∙◌, Bool, true, false, ◌||◌, not, some, List, [],
  ◌∷◌, ◌++◌, map, any, select, take, length, All, arith, Bool-cases, inl, inr, if◌then◌else◌,
  select-append,
}
use foodler.Text.{Text, text_eq}
use foodler.Text.Laws.{text_eq_iff, text_eq_refl}
use foodler.Keys.{
  text_eq_comm, has_key, HasDistinctKeys, HasDistinctKeys-select, HasDistinctKeys-concat,
  HasDistinctKeys-map, length-select_key, select-select_same,
}
use foodler.Storage.Database.{insert_ordered, order_by}
use foodler.Ai.Types.{AiReport, AiActionType, AiReportSnapshot, AiResult}
use foodler.Ai.Reports.{
  insert_report, update_pinned, delete_by_id, delete_expired, newer, kept_ids, trim_excess,
  cleanup_old_reports, init_ai_reports_table, save_ai_report, new_report, select_by_id, first,
  get_ai_report, toggle_pin_report, delete_ai_report, ReportCall, saves, toggles, deletes, inits,
  trimmed, unless_thrown, call, call_all,
}

abbrev pub unpinned : List AiReport → List AiReport
unpinned rows = select (λ r. not r.pinned) rows

abbrev pub HasDistinctIds : List AiReport → Type 0
HasDistinctIds rows = HasDistinctKeys (λ (r : AiReport). r.id) rows

insert-HasDistinctIds :
    (report : AiReport) (rows : List AiReport)
    → HasDistinctIds rows
    → HasDistinctIds (unless_thrown rows (trimmed (insert_report report rows)))
unfolding insert_report trim_excess
insert-HasDistinctIds report rows h = elim (Bool-cases (any (λ x. text_eq x.id report.id) rows)) [
  | inl taken ↦ rw (insert_report, taken) h
  | inr free ↦
      rw (insert_report, free)
        (HasDistinctKeys-select (λ (r : AiReport). r.id) _ (rows ++ report ∷ [])
          (HasDistinctKeys-concat (λ (r : AiReport). r.id) rows report h free))
]

call-HasDistinctIds :
    (c : ReportCall) (rows : List AiReport) → HasDistinctIds rows → HasDistinctIds (call c rows)
unfolding call save_ai_report toggle_pin_report update_pinned delete_ai_report delete_by_id
    init_ai_reports_table cleanup_old_reports delete_expired
call-HasDistinctIds (saves now fresh action snapshot response) rows h =
    insert-HasDistinctIds (new_report now fresh action snapshot response) rows h
call-HasDistinctIds (toggles other pinned) rows h =
    HasDistinctKeys-map (λ (r : AiReport). r.id)
      (λ r. if text_eq r.id other then record r { pinned = pinned } else r) rows (λ r. ground arith)
      h
call-HasDistinctIds (deletes other) rows h =
    HasDistinctKeys-select (λ (r : AiReport). r.id) _ rows h
call-HasDistinctIds (inits now) rows h = HasDistinctKeys-select (λ (r : AiReport). r.id) _ rows h

pub call_all-HasDistinctIds :
    (cs : List ReportCall) (rows : List AiReport)
    → HasDistinctIds rows
    → HasDistinctIds (call_all cs rows)
call_all-HasDistinctIds [] rows h = h
call_all-HasDistinctIds (c ∷ cs) rows h =
    call_all-HasDistinctIds cs (call c rows) (call-HasDistinctIds c rows h)

-- Rows that two tests select are at most those that either selects.
length-select_or :
    (a b : AiReport → Bool) (rows : List AiReport)
    → length (select (λ r. a r || b r) rows) ≤ length (select a rows) + length (select b rows)
length-select_or a b [] = omega arith
length-select_or a b (r ∷ rows) = ground (arith, length-select_or a b rows)

length-select_below :
    (keep drop test : AiReport → Bool) (rows : List AiReport)
    → ((r : AiReport) → keep r ≡ true → drop r ≡ true → test r ≡ true)
    → length (select keep (select drop rows)) ≤ length (select test rows)
length-select_below keep drop test [] h = omega arith
length-select_below keep drop test (r ∷ rows) h =
    ground (arith, length-select_below keep drop test rows h, h r)

-- Rows with different identifiers, of a list of identifiers, are no more than the list.
length-select_members :
    (kept : List Text) (rows : List AiReport)
    → HasDistinctIds rows
    → length (select (λ r. any (λ k. text_eq k r.id) kept) rows) ≤ length kept
length-select_members [] rows d = nothing rows
  where
    nothing : (rows : List AiReport) → length (select (λ (r : AiReport). false) rows) ≤ 0
    nothing [] = omega arith
    nothing (r ∷ rows) = nothing rows
length-select_members (k ∷ kept) rows d = omega (
  arith,
  length-select_or (λ r. text_eq k r.id) (λ r. any (λ j. text_eq j r.id) kept) rows,
  ap length (same_test rows),
  length-select_key (λ (r : AiReport). r.id) k rows d,
  length-select_members kept rows d,
)
  where
    same_test :
        (rows : List AiReport)
        → select (λ (r : AiReport). text_eq k r.id) rows
          ≡ select (has_key (λ (r : AiReport). r.id) k) rows
    same_test [] = refl
    same_test (r ∷ rows) =
        rw (text_eq_comm k r.id)
          (ap (λ rest. if text_eq r.id k then r ∷ rest else rest) (same_test rows))

length-take-le : {A : Type 0} (n : ℕ) (xs : List A) → length (take n xs) ≤ n
length-take-le zero xs = omega arith
length-take-le (suc n) [] = omega arith
length-take-le (suc n) (x ∷ xs) = omega (arith, length-take-le n xs)

length-map : {A B : Type 0} (f : A → B) (xs : List A) → length (map f xs) ≡ length xs
length-map f [] = refl
length-map f (x ∷ xs) = omega (arith, length-map f xs)

length-trim :
    (limit : ℕ) (rows : List AiReport)
    → HasDistinctIds rows
    → length (unpinned (trim_excess limit rows)) ≤ limit
unfolding trim_excess kept_ids
length-trim limit rows d = omega (
  arith,
  length-select_below (λ r. not r.pinned)
      (λ r. r.pinned || any (λ k. text_eq k r.id) (kept_ids limit rows))
      (λ r. any (λ k. text_eq k r.id) (kept_ids limit rows)) rows (λ r p q. ground arith),
  length-select_members (kept_ids limit rows) rows d,
  length-map (λ (r : AiReport). r.id) (take limit (order_by newer (unpinned rows))),
  length-take-le limit (order_by newer (unpinned rows)),
)

-- A row that is strictly newer than all others comes first.
order_by-newest :
    (rows : List AiReport) (r : AiReport)
    → All (λ s. s.created_at < r.created_at) rows
    → order_by newer (rows ++ r ∷ []) ≡ r ∷ order_by newer rows
unfolding order_by insert_ordered
order_by-newest [] r h = refl
order_by-newest (s ∷ rows) r (p, h) =
    ap (insert_ordered newer s) (order_by-newest rows r h) ∙ ground arith

any-newest : (id : Text) (ids : List Text) → any (λ k. text_eq k id) (id ∷ ids) ≡ true
any-newest id ids = rw (text_eq_refl id) refl

-- The newest report, unpinned, is among those that trimming keeps.
kept_ids-newest :
    (limit : ℕ) (rows : List AiReport) (r : AiReport)
    → r.pinned ≡ false
    → All (λ s. s.created_at < r.created_at) rows
    → any (λ k. text_eq k r.id) (kept_ids (suc limit) (rows ++ r ∷ [])) ≡ true
unfolding kept_ids
kept_ids-newest limit rows r p h =
    let split =
      select-append (λ s. not s.pinned) rows (r ∷ [])
      ∙ ap (λ own. unpinned rows ++ own) (alone r p) in
    let ordered = ap (order_by newer) split ∙ order_by-newest (unpinned rows) r (older rows h) in
    ap (λ rs. any (λ k. text_eq k r.id) (map (λ s. s.id) (take (suc limit) rs))) ordered
    ∙ any-newest r.id (map (λ s. s.id) (take limit (order_by newer (unpinned rows))))
  where
    older :
        (rows : List AiReport)
        → All (λ s. s.created_at < r.created_at) rows
        → All (λ s. s.created_at < r.created_at) (unpinned rows)
    older [] h = tt
    older (s ∷ rows) (p, h) = let ih = older rows h in ground arith

    alone : (r : AiReport) → r.pinned ≡ false → unpinned (r ∷ []) ≡ r ∷ []
    alone r p = ground arith

-- The rows of the identifier that is inserted.
own-new :
    (rows : List AiReport) (r : AiReport)
    → any (λ s. text_eq s.id r.id) rows ≡ false
    → select_by_id r.id (rows ++ r ∷ []) ≡ r ∷ []
own-new [] r h = rw (text_eq_refl r.id) refl
own-new (s ∷ rows) r h = let ih = own-new rows r in ground arith

-- The table after a report is saved: the report can be found, at most 25 reports are not pinned, and
-- the pinned ones are those from before.
abbrev pub IsSaved : AiReport → List AiReport → List AiReport → Type 0
IsSaved report before after =
    (get_ai_report report.id after ≡ some report)
    × (length (unpinned after) ≤ 25)
    × (select (λ r. r.pinned) after ≡ select (λ r. r.pinned) before)

trimmed-IsSaved :
    (r : AiReport) (rows : List AiReport)
    → HasDistinctIds rows
    → r.pinned ≡ false
    → any (λ s. text_eq s.id r.id) rows ≡ false
    → All (λ s. s.created_at < r.created_at) rows
    → IsSaved r rows (trim_excess 25 (rows ++ r ∷ []))
unfolding trim_excess get_ai_report
trimmed-IsSaved r rows d p free older =
    let all = rows ++ r ∷ [] in
    let kept = kept_ids-newest 24 rows r p older in
    let found =
      select-select_same (λ s. text_eq s.id r.id)
        (λ s. s.pinned || any (λ k. text_eq k s.id) (kept_ids 25 all)) all
        (λ s e. rw ((text_eq_iff s.id r.id).0 e, kept) (ground arith))
      ∙ own-new rows r free in
    (
      ap first found,
      length-trim 25 all (HasDistinctKeys-concat (λ (s : AiReport). s.id) rows r d free),
      select-select_same (λ s. s.pinned)
            (λ s. s.pinned || any (λ k. text_eq k s.id) (kept_ids 25 all)) all (λ s e. rw e refl)
          ∙ select-append (λ s. s.pinned) rows (r ∷ [])
          ∙ alone rows,
    )
  where
    alone :
        (rows : List AiReport)
        → select (λ s. s.pinned) rows ++ select (λ s. s.pinned) (r ∷ [])
          ≡ select (λ s. s.pinned) rows
    alone rows = rw p (append-nil (select (λ s. s.pinned) rows))

-- Whatever was done before, saving a report under an identifier that is not stored, later than all
-- stored reports were made, succeeds: the report can be loaded by its identifier, at most 25 reports
-- are not pinned, and trimming removed no pinned report.
pub save_ai_report-IsSaved :
    (cs : List ReportCall) (now : ℕ) (fresh : Text) (action : AiActionType)
    (snapshot : AiReportSnapshot) (response : AiResult)
    → any (λ r. text_eq r.id (new_report now fresh action snapshot response).id) (call_all cs [])
      ≡ false
    → All (λ r. r.created_at < now) (call_all cs [])
    → (after : List AiReport) × ((save_ai_report now fresh action snapshot response (call_all cs [])
          ≡ some after)
        × IsSaved (new_report now fresh action snapshot response) (call_all cs []) after)
unfolding save_ai_report insert_report
save_ai_report-IsSaved cs now fresh action snapshot response free older =
    let report = new_report now fresh action snapshot response in
    let rows = call_all cs [] in
    (
      trim_excess 25 (rows ++ report ∷ []),
      (
        rw (insert_report, free) refl,
        trimmed-IsSaved report rows (call_all-HasDistinctIds cs [] tt) refl free older,
      ),
    )
