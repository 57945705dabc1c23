-- ===== src/Ai/Reports/Refined.antt =====
-- The table of reports implements a map from identifiers to reports.
use foodler.Common.{
  ◌≡◌, refl, sym, subst, ap, ◌∙◌, ◌⊎◌, inl, inr, Bool, true, false, Option, none, some, List, [],
  ◌∷◌, ◌++◌, any, select, arith, Bool-cases, if◌then◌else◌,
}
use foodler.Text.{Text, text_eq}
use foodler.Text.Laws.{text_eq_iff}
use foodler.Keys.{any-select-false, HasDistinctKeys-concat}
use foodler.Ai.Types.{AiReport}
use foodler.Ai.Reports.{
  insert_report, update_pinned, delete_by_id, delete_expired, trim_excess, cleanup_old_reports,
  init_ai_reports_table, save_ai_report, new_report, get_ai_report, toggle_pin_report,
  delete_ai_report, ReportCall, saves, toggles, deletes, inits, trimmed, unless_thrown, call,
  call_all,
}
use foodler.Ai.Reports.Limit.{HasDistinctIds, call_all-HasDistinctIds}

-- The abstract state: the report of each identifier.
abbrev pub Reports : Type 0
Reports = Text → Option AiReport

abbrev with_pin : Bool → Option AiReport → Option AiReport
with_pin pinned none = none
with_pin pinned (some r) = some (record r { pinned = pinned })

abbrev or_new : AiReport → Option AiReport → Option AiReport
or_new report none = some report
or_new report (some r) = some r

-- What a call means: a report is added unless its identifier is taken, pinned or unpinned, or
-- deleted; all other identifiers keep theirs.
abbrev pub meant : ReportCall → Reports → Reports
meant (saves now fresh action snapshot response) reports id =
    let report = new_report now fresh action snapshot response in
    if text_eq report.id id then or_new report (reports id) else reports id
meant (toggles other pinned) reports id =
    if text_eq other id then with_pin pinned (reports id) else reports id
meant (deletes other) reports id = if text_eq other id then none else reports id
meant (inits now) reports id = reports id

-- The identifier has what is meant, or it lost a report that is not pinned.
abbrev pub IsAllowed : Option AiReport → Option AiReport → Type 0
IsAllowed intended actual =
    (actual ≡ intended)
    ⊎ ((actual ≡ none) × ((r : AiReport) × ((intended ≡ some r) × (r.pinned ≡ false))))

-- What the table says.
abbrev pub stored : List AiReport → Reports
stored rows id = get_ai_report id rows

stored-here :
    (id : Text) (r : AiReport) (rows : List AiReport)
    → text_eq r.id id ≡ true
    → stored (r ∷ rows) id ≡ some r
unfolding get_ai_report
stored-here id r rows e = rw e refl

stored-there :
    (id : Text) (r : AiReport) (rows : List AiReport)
    → text_eq r.id id ≡ false
    → stored (r ∷ rows) id ≡ stored rows id
unfolding get_ai_report
stored-there id r rows e = rw e refl

stored-none :
    (id : Text) (rows : List AiReport)
    → any (λ r. text_eq r.id id) rows ≡ false
    → stored rows id ≡ none
unfolding get_ai_report
stored-none id [] h = refl
stored-none id (r ∷ rows) h = let ih = stored-none id rows in ground arith

-- A deletion that looks at unpinned rows only.
select-IsAllowed :
    (keep : AiReport → Bool) (rows : List AiReport) (id : Text)
    → ((r : AiReport) → r.pinned ≡ true → keep r ≡ true)
    → HasDistinctIds rows
    → IsAllowed (stored rows id) (stored (select keep rows) id)
select-IsAllowed keep [] id h d = inl refl
select-IsAllowed keep (r ∷ rows) id h (p, d) = elim (Bool-cases (text_eq r.id id)) [
  | inl e ↦ elim (Bool-cases (keep r)) [
    | inl kept ↦
        inl (rw kept (stored-here id r (select keep rows) e ∙ sym (stored-here id r rows e)))
    | inr gone ↦ inr (
      rw gone (
          stored-none id (select keep rows)
            (any-select-false (λ s. text_eq s.id id) keep rows (others e))),
      (r, (stored-here id r rows e, unpinned_if gone)),
    )
  ]
  | inr n ↦
      let ih = select-IsAllowed keep rows id h d in
      let there = stored-there id r rows n in
      elim (Bool-cases (keep r)) [
        | inl kept ↦ rw (kept, stored-there id r (select keep rows) n, there) ih
        | inr gone ↦ rw (gone, there) ih
      ]
]
  where
    others : text_eq r.id id ≡ true → any (λ s. text_eq s.id id) rows ≡ false
    others e =
        ap (λ i. any (λ (s : AiReport). text_eq s.id i) rows) (sym ((text_eq_iff r.id id).0 e)) ∙ p

    unpinned_if : keep r ≡ false → r.pinned ≡ false
    unpinned_if gone = elim (Bool-cases r.pinned) [
      | inl pinned ↦ absurd (cc (sym gone ∙ h r pinned))
      | inr not_pinned ↦ not_pinned
    ]

stored-append :
    (id : Text) (rows : List AiReport) (r : AiReport)
    → stored (rows ++ r ∷ []) id
      ≡ (if text_eq r.id id then or_new r (stored rows id) else stored rows id)
unfolding get_ai_report
stored-append id [] r = ground arith
stored-append id (s ∷ rows) r = elim (Bool-cases (text_eq s.id id)) [
  | inl e ↦ rw e (ground arith)
  | inr n ↦ rw n (stored-append id rows r)
]

stored-taken :
    (id : Text) (rows : List AiReport) (r : AiReport)
    → any (λ s. text_eq s.id id) rows ≡ true
    → or_new r (stored rows id) ≡ stored rows id
unfolding get_ai_report
stored-taken id [] r h = cc
stored-taken id (s ∷ rows) r h = elim (Bool-cases (text_eq s.id id)) [
  | inl e ↦ rw e refl
  | inr n ↦ rw n (stored-taken id rows r (rw n at h))
]

save-IsAllowed :
    (report : AiReport) (rows : List AiReport) (id : Text)
    → HasDistinctIds rows
    → IsAllowed
        (if text_eq report.id id then or_new report (stored rows id) else stored rows id)
        (stored (unless_thrown rows (trimmed (insert_report report rows))) id)
unfolding insert_report trim_excess
save-IsAllowed report rows id d = elim (Bool-cases (any (λ r. text_eq r.id report.id) rows)) [
  | inl taken ↦
      let thrown : insert_report report rows ≡ none = rw taken refl in
      inl (
        ap (λ o. stored (unless_thrown rows (trimmed o)) id) thrown
        ∙ sym (same taken (Bool-cases (text_eq report.id id))))
  | inr free ↦
      let all = rows ++ report ∷ [] in
      let inserted : insert_report report rows ≡ some all = rw free refl in
      subst
        (λ o. IsAllowed o (stored (unless_thrown rows (trimmed (insert_report report rows))) id))
        (stored-append id rows report)
        (subst (λ o. IsAllowed (stored all id) (stored (unless_thrown rows (trimmed o)) id))
          (sym inserted)
          (select-IsAllowed _ all id (λ r h. rw h refl)
            (HasDistinctKeys-concat (λ (r : AiReport). r.id) rows report d free)))
]
  where
    same :
        any (λ r. text_eq r.id report.id) rows ≡ true
        → (text_eq report.id id ≡ true) ⊎ (text_eq report.id id ≡ false)
        → (if text_eq report.id id then or_new report (stored rows id) else stored rows id)
          ≡ stored rows id
    same taken (inl e) = rw e (
        stored-taken id rows report (
          ap (λ i. any (λ (r : AiReport). text_eq r.id i) rows)
            (sym ((text_eq_iff report.id id).0 e))
          ∙ taken))
    same taken (inr n) = rw n refl

update-stored :
    (pinned : Bool) (other id : Text) (rows : List AiReport)
    → stored (update_pinned pinned other rows) id
      ≡ (if text_eq other id then with_pin pinned (stored rows id) else stored rows id)
unfolding update_pinned get_ai_report
update-stored pinned other id [] = ground arith
update-stored pinned other id (r ∷ rows) =
    let ih = update-stored pinned other id rows in
    ground (arith, ih, text_eq_iff r.id id, text_eq_iff other id, text_eq_iff r.id other)

delete-stored :
    (other id : Text) (rows : List AiReport)
    → stored (delete_by_id other rows) id ≡ (if text_eq other id then none else stored rows id)
unfolding delete_by_id get_ai_report
delete-stored other id [] = ground arith
delete-stored other id (r ∷ rows) =
    let ih = delete-stored other id rows in
    ground (arith, ih, text_eq_iff r.id id, text_eq_iff other id, text_eq_iff r.id other)

call-IsAllowed :
    (c : ReportCall) (rows : List AiReport) (id : Text)
    → HasDistinctIds rows
    → IsAllowed (meant c (stored rows) id) (stored (call c rows) id)
unfolding call save_ai_report toggle_pin_report delete_ai_report init_ai_reports_table
    cleanup_old_reports delete_expired
call-IsAllowed (saves now fresh action snapshot response) rows id d =
    save-IsAllowed (new_report now fresh action snapshot response) rows id d
call-IsAllowed (toggles other pinned) rows id d = inl (update-stored pinned other id rows)
call-IsAllowed (deletes other) rows id d = inl (delete-stored other id rows)
call-IsAllowed (inits now) rows id d = select-IsAllowed _ rows id (λ r h. rw h refl) d

-- After any calls, every call does to the table what it means for the map from identifiers to
-- reports (a save adds the report unless its identifier is taken, a toggle changes the pin of one, a
-- deletion removes one, the cleanup changes none), but that reports which are not pinned may be lost
-- to the limits.
pub call_all-refines :
    (cs : List ReportCall) (c : ReportCall) (id : Text)
    → IsAllowed (meant c (stored (call_all cs [])) id) (stored (call_all (cs ++ c ∷ []) []) id)
call_all-refines cs c id =
    subst (λ rows. IsAllowed (meant c (stored (call_all cs [])) id) (stored rows id))
      (sym (after cs [])) (call-IsAllowed c (call_all cs []) id (call_all-HasDistinctIds cs [] tt))
  where
    after :
        (cs : List ReportCall) (rows : List AiReport)
        → call_all (cs ++ c ∷ []) rows ≡ call c (call_all cs rows)
    after [] rows = refl
    after (d ∷ ds) rows = after ds (call d rows)
