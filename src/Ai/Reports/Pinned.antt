-- ===== src/Ai/Reports/Pinned.antt =====
-- A pinned report stays until the user unpins or deletes it.
use mathlib.Core.List.{append-nil}
use foodler.Common.{
  ℕ, ◌≡◌, refl, sym, ap, ◌∙◌, Bool, true, false, ◌&&◌, not, List, [], ◌∷◌, ◌++◌, any, select, All,
  arith, Bool-cases, inl, inr, select-append,
}
use foodler.Text.{Text, text_eq}
use foodler.Text.Laws.{text_eq_iff}
use foodler.Keys.{select-select_same, text_eq_comm}
use foodler.Ai.Types.{AiReport}
use foodler.Ai.Reports.{
  insert_report, update_pinned, delete_by_id, delete_expired, trim_excess, cleanup_old_reports,
  init_ai_reports_table, save_ai_report, select_by_id, toggle_pin_report, delete_ai_report,
  ReportCall, saves, toggles, deletes, inits, unless_thrown, trimmed, call, call_all,
}

-- The call neither unpins nor deletes report `id`.
abbrev pub Spares : Text → ReportCall → Type 0
Spares id (toggles other pinned) = (text_eq other id && not pinned) ≡ false
Spares id (deletes other) = text_eq other id ≡ false
Spares id _ = Unit

-- All rows of that identifier are pinned; it is the primary key, so there is one at most.
abbrev ArePinned : List AiReport → Type 0
ArePinned rows = All (λ r. r.pinned ≡ true) rows

module _ (id : Text) where
  -- A deletion that looks at unpinned rows only.
  own-select :
      (keep : AiReport → Bool) (rows : List AiReport)
      → ((r : AiReport) → r.pinned ≡ true → keep r ≡ true)
      → ArePinned (select_by_id id rows)
      → select_by_id id (select keep rows) ≡ select_by_id id rows
  own-select keep [] h p = refl
  own-select keep (r ∷ rows) h p = elim (Bool-cases (text_eq r.id id)) [
    | inl e ↦
        let (q, rest) = rw e at p in
        rw (h r q, e) (ap (λ (rs : List AiReport). r ∷ rs) (own-select keep rows h rest))
    | inr n ↦ let ih = own-select keep rows h (rw n at p) in ground arith
  ]

  own-trim :
      (limit : ℕ) (rows : List AiReport)
      → ArePinned (select_by_id id rows)
      → select_by_id id (trim_excess limit rows) ≡ select_by_id id rows
  unfolding trim_excess
  own-trim limit rows p = own-select _ rows (λ r h. rw h) p

  own-cleanup :
      (now : ℕ) (rows : List AiReport)
      → ArePinned (select_by_id id rows)
      → select_by_id id (init_ai_reports_table now rows) ≡ select_by_id id rows
  unfolding init_ai_reports_table cleanup_old_reports delete_expired
  own-cleanup now rows p = own-select _ rows (λ r h. rw h) p

  own-insert :
      (report : AiReport) (rows : List AiReport)
      → text_eq report.id id ≡ false
      → select_by_id id (rows ++ report ∷ []) ≡ select_by_id id rows
  own-insert report rows h =
      select-append (λ r. text_eq r.id id) rows (report ∷ [])
      ∙ rw h (append-nil (select_by_id id rows))

  own-update :
      (other : Text) (pinned : Bool) (rows : List AiReport)
      → select_by_id id (update_pinned pinned other rows)
        ≡ update_pinned pinned other (select_by_id id rows)
  unfolding update_pinned
  own-update other pinned [] = refl
  own-update other pinned (r ∷ rows) = ground (arith, own-update other pinned rows)

  own-delete :
      (other : Text) (rows : List AiReport)
      → text_eq other id ≡ false
      → select_by_id id (delete_by_id other rows) ≡ select_by_id id rows
  unfolding delete_by_id
  own-delete other rows h =
      select-select_same (λ r. text_eq r.id id) (λ r. not (text_eq r.id other)) rows
        (λ r e. ground (
          arith,
          text_eq_iff r.id id,
          text_eq_iff r.id other,
          text_eq_iff id other,
          text_eq_comm id other,
        ))

  any-own :
      (rows : List AiReport) (r : AiReport) (rest : List AiReport)
      → select_by_id id rows ≡ r ∷ rest
      → any (λ x. text_eq x.id id) rows ≡ true
  any-own [] r rest h = cc
  any-own (x ∷ rows) r rest h = ground (arith, any-own rows r rest)

-- Report `r` is stored, once, and pinned.
abbrev pub IsKept : AiReport → List AiReport → Type 0
IsKept r rows = (select_by_id r.id rows ≡ r ∷ []) × (r.pinned ≡ true)

own-ArePinned :
    (r : AiReport) (rows : List AiReport) → IsKept r rows → ArePinned (select_by_id r.id rows)
own-ArePinned r rows (h, p) = rw h (p, tt)

save-IsKept :
    (report r : AiReport) (rows : List AiReport)
    → IsKept r rows
    → IsKept r (unless_thrown rows (trimmed (insert_report report rows)))
unfolding insert_report
save-IsKept report r rows (h, p) = elim (Bool-cases (any (λ x. text_eq x.id report.id) rows)) [
  | inl taken ↦ rw (insert_report, taken) (h, p)
  | inr free ↦
      let own = own-insert r.id report rows (differs free) ∙ h in
      rw (insert_report, free) (own-trim r.id 25 (rows ++ report ∷ []) (rw own (p, tt)) ∙ own, p)
]
  where
    differs : any (λ x. text_eq x.id report.id) rows ≡ false → text_eq report.id r.id ≡ false
    differs free = elim (Bool-cases (text_eq report.id r.id)) [
      | inl e ↦
          let same =
            ap (λ id. any (λ (x : AiReport). text_eq x.id id) rows)
              ((text_eq_iff report.id r.id).0 e) in
          absurd (cc (sym free ∙ same ∙ any-own r.id rows r [] h))
      | inr n ↦ n
    ]

toggled :
    (r : AiReport) (other : Text) (pinned : Bool)
    → (text_eq other r.id && not pinned) ≡ false
    → r.pinned ≡ true
    → update_pinned pinned other (r ∷ []) ≡ r ∷ []
unfolding update_pinned
toggled r other pinned g p = ground (arith, text_eq_comm other r.id)

call-IsKept :
    (c : ReportCall) (r : AiReport) (rows : List AiReport)
    → Spares r.id c
    → IsKept r rows
    → IsKept r (call c rows)
unfolding call save_ai_report toggle_pin_report delete_ai_report
call-IsKept (saves now fresh action snapshot response) r rows g h = save-IsKept _ r rows h
call-IsKept (toggles other pinned) r rows g (h, p) =
    (own-update r.id other pinned rows ∙ rw h (toggled r other pinned g p), p)
call-IsKept (deletes other) r rows g (h, p) = (own-delete r.id other rows g ∙ h, p)
call-IsKept (inits now) r rows g (h, p) =
    (own-cleanup r.id now rows (own-ArePinned r rows (h, p)) ∙ h, p)

-- A stored pinned report stays as it is, through every sequence of calls that neither unpin nor
-- delete it: reports that are saved, trimmed or cleaned up, now or later, do not touch it.
pub pinned-IsKept :
    (cs : List ReportCall) (r : AiReport) (rows : List AiReport)
    → All (Spares r.id) cs
    → IsKept r rows
    → IsKept r (call_all cs rows)
pinned-IsKept [] r rows g h = h
pinned-IsKept (c ∷ cs) r rows (p, g) h =
    pinned-IsKept cs r (call c rows) g (call-IsKept c r rows p h)
