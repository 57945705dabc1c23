-- ===== src/App/Refreshes/Current.antt =====
-- The screens go back to no older version.
use foodler.Common.{
  ℕ, ◌+◌, ◌≤◌, ◌≡◌, sym, subst, ap, ◌∙◌, ◌⊎◌, true, false, Option, none, some, Bool-cases, inl, inr,
  arith, if◌then◌else◌, ◌==◌,
}
use foodler.App.Refreshes.{
  Load, Screens, set_running, begin_refresh, read_receipts, read_items, read_overrides,
  finish_refresh, fail_refresh, Step, Reach, changes, begins, reads_receipts, reads_items,
  reads_overrides, ends, fails, here, next,
}

-- The version that was read is between two.
abbrev IsBetween : ℕ → ℕ → Option ℕ → Type 0
IsBetween low high none = Unit
IsBetween low high (some v) = (low ≤ v) × (v ≤ high)

abbrev IsLoad : Screens → Option Load → Type 0
IsLoad s none = Unit
IsLoad s (some load) =
    IsBetween s.receipts s.version load.receipts
    × IsBetween s.joined_items s.version load.items
    × IsBetween s.overrides s.version load.overrides

-- What is shown was a version, and what the last refresh has read is no older.
abbrev IsCurrent : Screens → Type 0
IsCurrent s =
    (s.receipts ≤ s.version)
    × (s.joined_items ≤ s.version)
    × (s.overrides ≤ s.version)
    × IsLoad s (s.running s.refresh_sequence)

-- What a step does to what is shown: it stays current, and goes back to no older version.
abbrev Advances : Screens → Screens → Type 0
Advances s t =
    IsCurrent t
    × (s.receipts ≤ t.receipts)
    × (s.joined_items ≤ t.joined_items)
    × (s.overrides ≤ t.overrides)

-- A refresh goes on with what it has read, if it is the last one.
load-Advances :
    (n : ℕ) (load : Option Load) (s : Screens)
    → IsCurrent s
    → ((n == s.refresh_sequence) ≡ true → IsLoad s load)
    → Advances s (set_running n load s)
load-Advances n load s (r, i, o, own) h = (
  (r, i, o, here_or_there (Bool-cases (s.refresh_sequence == n))),
  omega arith,
  omega arith,
  omega arith,
)
  where
    here_or_there :
        ((s.refresh_sequence == n) ≡ true) ⊎ ((s.refresh_sequence == n) ≡ false)
        → IsLoad s (if s.refresh_sequence == n then load else s.running s.refresh_sequence)
    here_or_there (inl same) = rw same (h (ground (arith, same)))
    here_or_there (inr other) = rw other own

own_load :
    (n : ℕ) (load : Option Load) (s : Screens)
    → IsCurrent s
    → s.running n ≡ load
    → (n == s.refresh_sequence) ≡ true
    → IsLoad s load
own_load n load s (r, i, o, own) e same =
    let number : n ≡ s.refresh_sequence = ground arith in
    subst (IsLoad s) (ap s.running (sym number) ∙ e) own

IsBetween-more : (low high : ℕ) (v : Option ℕ) → IsBetween low high v → IsBetween low (high + 1) v
IsBetween-more low high none h = tt
IsBetween-more low high (some v) (a, b) = (a, omega (arith, b))

IsLoad-more :
    (s : Screens) (load : Option Load)
    → IsLoad s load
    → IsLoad (record s { version = s.version + 1 }) load
IsLoad-more s none h = tt
IsLoad-more s (some load) (a, b, c) = (
  IsBetween-more s.receipts s.version load.receipts a,
  IsBetween-more s.joined_items s.version load.items b,
  IsBetween-more s.overrides s.version load.overrides c,
)

ends-Advances :
    (n receipts items overrides : ℕ) (s : Screens)
    → IsCurrent s
    → s.running n
      ≡ some (record { receipts = some receipts; items = some items; overrides = some overrides })
    → Advances s (finish_refresh n receipts items overrides s)
unfolding finish_refresh
ends-Advances n receipts items overrides s h e = elim (Bool-cases (n == s.refresh_sequence)) [
  | inl same ↦
      let ((a, b), (c, d), (f, g)) = own_load n _ s h e same in
      rw same ((b, d, g, rw (turned same) tt), a, c, f)
  | inr other ↦ rw other (load-Advances n none s h (λ x. tt))
]
  where
    turned : (n == s.refresh_sequence) ≡ true → (s.refresh_sequence == n) ≡ true
    turned same = ground (arith, same)

fails-Advances : (n : ℕ) (s : Screens) → IsCurrent s → Advances s (fail_refresh n s)
unfolding fail_refresh
fails-Advances n s h = elim (Bool-cases (n == s.refresh_sequence)) [
  | inl same ↦ rw same (load-Advances n none s h (λ x. tt))
  | inr other ↦ rw other (load-Advances n none s h (λ x. tt))
]

Step-Advances : {s t : Screens} → Step s t → IsCurrent s → Advances s t
unfolding begin_refresh read_receipts read_items read_overrides
Step-Advances {s} changes (r, i, o, own) = (
  (
    omega (arith, r),
    omega (arith, i),
    omega (arith, o),
    IsLoad-more s (s.running s.refresh_sequence) own,
  ),
  omega arith,
  omega arith,
  omega arith,
)
Step-Advances {s} begins (r, i, o, own) =
    ((r, i, o, ground arith), omega arith, omega arith, omega arith)
Step-Advances {s} (reads_receipts n load e) (r, i, o, own) =
    load-Advances n _ s (r, i, o, own)
      (λ same.
        let (a, b, c) = own_load n (some load) s (r, i, o, own) e same in ((r, omega arith), b, c))
Step-Advances {s} (reads_items true n load e) (r, i, o, own) =
    load-Advances n _ s (r, i, o, own)
      (λ same.
        let (a, b, c) = own_load n (some load) s (r, i, o, own) e same in
        (a, (i, omega arith), (o, omega arith)))
Step-Advances {s} (reads_items false n load e) (r, i, o, own) =
    load-Advances n _ s (r, i, o, own)
      (λ same.
        let (a, b, c) = own_load n (some load) s (r, i, o, own) e same in (a, (i, omega arith), c))
Step-Advances {s} (reads_overrides n load items e f) (r, i, o, own) =
    load-Advances n _ s (r, i, o, own)
      (λ same.
        let (a, b, c) = own_load n (some load) s (r, i, o, own) e same in (a, b, (o, omega arith)))
Step-Advances {s} (ends n receipts items overrides e) h =
    ends-Advances n receipts items overrides s h e
Step-Advances {s} (fails n load e) h = fails-Advances n s h

Reach-IsCurrent : {s : Screens} → Reach s → IsCurrent s
Reach-IsCurrent here = (omega arith, omega arith, omega arith, tt)
Reach-IsCurrent (next r s) = (Step-Advances s (Reach-IsCurrent r)).0

-- However changes of the tables, queries and ends of refreshes interleave, none of the three parts that
-- the screens show (the receipts, the joined items and the overrides applied to them, which can be of
-- different versions) goes back to an older version, and none is of a version to come.
pub refreshes-never_go_back :
    (s t : Screens)
    → Reach s
    → Step s t
    → (s.receipts ≤ t.receipts)
      × (s.joined_items ≤ t.joined_items)
      × (s.overrides ≤ t.overrides)
      × (t.receipts ≤ t.version)
      × (t.joined_items ≤ t.version)
      × (t.overrides ≤ t.version)
refreshes-never_go_back s t reach step =
    let ((r, i, o, own), a, b, c) = Step-Advances step (Reach-IsCurrent reach) in (a, b, c, r, i, o)
