-- ===== src/App/Refreshes.antt =====
-- `refreshDatabase` of mobile/src/features/app/AppDataContext.tsx. Every refresh has the number that
-- `refreshSequence` gives it. A version of the tables is the number of their changes; a refresh makes
-- three queries: the receipts, the joined items and, after those, the category overrides that
-- `loadJoinedItems` applies to them. The tables can change between two of them.
pub mod Current
use foodler.Common.{
  ℕ, ◌+◌, ◌≤◌, ◌≡◌, sym, subst, ap, ◌∙◌, ◌⊎◌, Bool, true, false, Option, none, some, Bool-cases,
  inl, inr, arith, if◌then◌else◌, ◌==◌,
}

-- What a refresh that has not ended has read.
pub record Load : Type 0 where
  pub receipts : Option ℕ
  pub items : Option ℕ
  pub overrides : Option ℕ

-- `receipts`, `joined_items` and `overrides` are the versions of which the screens show the receipts,
-- the joined items and the overrides applied to these.
pub record Screens : Type 0 where
  pub version : ℕ
  pub refresh_sequence : ℕ
  pub running : ℕ → Option Load
  pub receipts : ℕ
  pub joined_items : ℕ
  pub overrides : ℕ
  pub load_error : Bool

abbrev pub start : Screens
start = record {
  version = 0;
  refresh_sequence = 0;
  running = λ n. none;
  receipts = 0;
  joined_items = 0;
  overrides = 0;
  load_error = false;
}

abbrev pub set_running : ℕ → Option Load → Screens → Screens
set_running n load s = record s { running = λ m. if m == n then load else s.running m }

unfoldable pub begin_refresh : Screens → Screens
begin_refresh s =
    set_running (s.refresh_sequence + 1)
      (some (record { receipts = none; items = none; overrides = none }))
      (record s { refresh_sequence = s.refresh_sequence + 1 })

-- `loadReceipts`.
unfoldable pub read_receipts : ℕ → Load → Screens → Screens
read_receipts n load s = set_running n (some (record load { receipts = some s.version })) s

-- The query of `loadJoinedItems`. Where there are no items, the overrides are not asked for, and no
-- items with any overrides are no items.
unfoldable pub read_items : Bool → ℕ → Load → Screens → Screens
read_items true n load s =
    set_running n (some (record load { items = some s.version; overrides = some s.version })) s
read_items false n load s = set_running n (some (record load { items = some s.version })) s

-- The query of `applyLocalCategoryOverrides`.
unfoldable pub read_overrides : ℕ → Load → Screens → Screens
read_overrides n load s = set_running n (some (record load { overrides = some s.version })) s

-- After all: only the refresh that began last shows what it read.
unfoldable pub finish_refresh : ℕ → ℕ → ℕ → ℕ → Screens → Screens
finish_refresh n receipts items overrides s =
    if n == s.refresh_sequence
    then record (set_running n none s) {
      receipts = receipts;
      joined_items = items;
      overrides = overrides;
      load_error = false;
    }
    else set_running n none s

-- A reading throws.
unfoldable pub fail_refresh : ℕ → Screens → Screens
fail_refresh n s =
    if n == s.refresh_sequence
    then record (set_running n none s) { load_error = true }
    else set_running n none s

pub data Step (s : Screens) : Screens → Type 0 where
  changes : Step s (record s { version = s.version + 1 })
  begins : Step s (begin_refresh s)
  reads_receipts : (n : ℕ) (load : Load) → s.running n ≡ some load → Step s (read_receipts n load s)
  reads_items :
      (empty : Bool) (n : ℕ) (load : Load)
      → s.running n ≡ some load
      → Step s (read_items empty n load s)
  reads_overrides :
      (n : ℕ) (load : Load) (items : ℕ)
      → s.running n ≡ some load
      → load.items ≡ some items
      → Step s (read_overrides n load s)
  ends :
      (n receipts items overrides : ℕ)
      → s.running n
        ≡ some (record { receipts = some receipts; items = some items; overrides = some overrides })
      → Step s (finish_refresh n receipts items overrides s)
  fails : (n : ℕ) (load : Load) → s.running n ≡ some load → Step s (fail_refresh n s)

pub data Reach : Screens → Type 0 where
  here : Reach start
  next : {s t : Screens} → Reach s → Step s t → Reach t
