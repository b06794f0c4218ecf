-- ===== src/CellMap/History.antt =====
-- Whole histories of a `CellMap`: the ids it gives out, and what becomes of them.
use grip.Common.{
  subst, ℕ, ◌+◌, ◌≤◌, ◌≡◌, refl, ◌∙◌, false, Option, none, some, List, [], ◌∷◌, arith,
  if◌then◌else◌,
}
use grip.Common.Int.{wrapping_suc, ℤ, pos, negsuc, int_eq}
use grip.CellMap.{
  CellMap, peek_id, insert_with_unique_id, remove_with_id, get_with_id, set_with_id, clear,
}
use grip.CellMap.Laws.{
  Issued, IsValid, inserted, insert-eq, get-inserted, inserted-IsValid, get-remove, get-set,
  remove-IsValid, set-IsValid, clear-IsValid, get-clear,
}

-- The operations that change a table.
pub data Op {ℓ} (T : Type ℓ) : Type ℓ where
  insert : T → Op T
  remove : ℤ → Op T
  write : ℤ → T → Op T
  wipe : Op T

module _ {ℓ} {T : Type ℓ} where
  -- `none` is a panic.
  unfoldable pub step : ℕ → CellMap T → Op T → Option (CellMap T)
  step max m (insert item) = elim (insert_with_unique_id max m item) [
    | none ↦ none
    | some (id, m') ↦ some m'
  ]
  step max m (remove id) = some (remove_with_id m id).1
  step max m (write id item) = some (set_with_id m id item)
  step max m wipe = some (clear m)

  unfoldable pub run : ℕ → CellMap T → List (Op T) → Option (CellMap T)
  unfolding step
  run max m [] = some m
  run max m (op ∷ ops) = elim (step max m op) [ none ↦ none | some m' ↦ run max m' ops ]

  abbrev pub inserts : List (Op T) → ℕ
  inserts [] = 0
  inserts (insert _ ∷ ops) = inserts ops + 1
  inserts (_ ∷ ops) = inserts ops

  -- What an insertion does to the whole table.
  pub record Inserted (m : CellMap T) (item : T) (id : ℤ) (m' : CellMap T) : Type ℓ where
    pub peeked : peek_id m ≡ id
    pub unused : get_with_id m id ≡ none
    pub get : (j : ℤ) → get_with_id m' j ≡ (if int_eq id j then some item else get_with_id m j)

-- In a valid table whose counter `n` is at most `isize::MAX`, `insert_with_unique_id` does not
-- panic. It returns the id that `peek_id` announced, which is `n` and was not in use; afterwards
-- that id holds the item and every other id holds what it held.
pub insert-Inserted {ℓ} :
    {T : Type ℓ} (max n : ℕ) (m : CellMap T) (item : T)
    → IsValid n m
    → n ≤ max
    → (m' : CellMap T) × (insert_with_unique_id max m item ≡ some (pos n, m'))
      × Inserted m item (pos n) m'
unfolding peek_id
insert-Inserted max n m item v h = (
  inserted max m item,
  insert-eq max n m item v h,
  record {
    peeked = v.counter;
    unused = v.fresh n (omega arith);
    get = λ j. get-inserted max n m item j v;
  },
)

-- An issued id is not the one that comes next.
int_eq-Issued : (n : ℕ) (id : ℤ) → Issued n id → int_eq (pos n) id ≡ false
int_eq-Issued n (pos k) i = ground arith
int_eq-Issued n (negsuc k) i = refl

module _ {ℓ} {T : Type ℓ} where
  -- One step of a valid table: it succeeds, and stale ids stay stale.
  abbrev pub Keeps : CellMap T → ℕ → CellMap T → Type ℓ
  Keeps m n m' = (id : ℤ) → Issued n id → get_with_id m id ≡ none → get_with_id m' id ≡ none

  abbrev pub after : Op T → ℕ → ℕ
  after (insert _) n = n + 1
  after _ n = n

  record Stepped (max n : ℕ) (m : CellMap T) (op : Op T) (m' : CellMap T) : Type ℓ where
    stepped : step max m op ≡ some m'
    valid : IsValid (after op n) m'
    keeps : Keeps m n m'

  step-Stepped :
      (max n : ℕ) (m : CellMap T) (op : Op T)
      → IsValid n m
      → after op n ≤ max
      → (m' : CellMap T) × Stepped max n m op m'
  unfolding step
  step-Stepped max n m (insert item) v h = (
    inserted max m item,
    record {
      stepped = rw (step, insert-eq max n m item v (omega arith));
      valid = inserted-IsValid max n m item v (omega arith);
      keeps = λ id i e. get-inserted max n m item id v ∙ rw (int_eq-Issued n id i) e;
    },
  )
  step-Stepped max n m (remove id) v h = (
    (remove_with_id m id).1,
    record {
      stepped = refl;
      valid = remove-IsValid n m id v;
      keeps = λ j i e. get-remove m id j ∙ ground arith;
    },
  )
  step-Stepped max n m (write id t) v h = (
    set_with_id m id t,
    record {
      stepped = refl;
      valid = set-IsValid n m id t v;
      keeps = λ j i e. get-set m id t j ∙ ground arith;
    },
  )
  step-Stepped max n m wipe v h = (
    clear m,
    record { stepped = refl; valid = clear-IsValid n m v; keeps = λ j i e. get-clear m j },
  )

  pub record Ran (max n : ℕ) (m : CellMap T) (ops : List (Op T)) (m' : CellMap T) : Type ℓ where
    pub ran : run max m ops ≡ some m'
    pub valid : IsValid (n + inserts ops) m'
    pub keeps : Keeps m n m'

-- An issued id stays issued.
Issued-mono : (n k : ℕ) (id : ℤ) → n ≤ k → Issued n id → Issued k id
Issued-mono n k (pos j) h i = omega arith
Issued-mono n k (negsuc j) h i = i

after-le {ℓ} : {T : Type ℓ} (op : Op T) (n : ℕ) → n ≤ after op n
after-le (insert _) n = omega arith
after-le (remove _) n = omega arith
after-le (write _ _) n = omega arith
after-le wipe n = omega arith

inserts-after {ℓ} :
    {T : Type ℓ} (op : Op T) (ops : List (Op T)) (n : ℕ)
    → after op n + inserts ops ≡ n + inserts (op ∷ ops)
inserts-after (insert _) ops n = omega arith
inserts-after (remove _) ops n = refl
inserts-after (write _ _) ops n = refl
inserts-after wipe ops n = refl

-- From a valid table whose counter is `n`, every history of insertions, removals, writes and
-- clears with at most `isize::MAX` - n insertions runs without a panic. It ends in a valid table
-- whose counter has grown by the number of insertions, and an id that was given out before and is
-- not in use stays unused.
pub run-Ran {ℓ} :
    {T : Type ℓ} (max n : ℕ) (m : CellMap T) (ops : List (Op T))
    → IsValid n m
    → n + inserts ops ≤ max
    → (m' : CellMap T) × Ran max n m ops m'
unfolding run
run-Ran max n m [] v h = (
  m,
  record { ran = refl; valid = subst (λ k. IsValid k m) (omega arith) v; keeps = λ id i e. e },
)
run-Ran max n m (op ∷ ops) v h =
    let bound : after op n + inserts ops ≤ max = omega (arith, inserts-after op ops n) in
    let first = step-Stepped max n m op v (omega arith) in
    let rest = run-Ran max (after op n) first.0 ops first.1.valid bound in
    (
      rest.0,
      record {
        ran = rw (run, first.1.stepped) rest.1.ran;
        valid = subst (λ k. IsValid k rest.0) (inserts-after op ops n) rest.1.valid;
        keeps = λ id i e.
            rest.1.keeps id (Issued-mono n (after op n) id (after-le op n) i)
              (first.1.keeps id i e);
      },
    )

wrapped : (max : ℕ) → wrapping_suc max (pos max) ≡ negsuc max
wrapped max = ground arith

-- In a valid table, the insertion at which the counter is `isize::MAX` still returns that as its id,
-- and the next insertion, of whatever item, panics.
pub insert_overflow {ℓ} :
    {T : Type ℓ} (max : ℕ) (m : CellMap T) (item later : T)
    → IsValid max m
    → (m' : CellMap T) × (insert_with_unique_id max m item ≡ some (pos max, m'))
      × (insert_with_unique_id max m' later ≡ none)
unfolding insert_with_unique_id
insert_overflow max m item later v = (
  inserted max m item,
  insert-eq max max m item v (omega arith),
  rw (v.counter, wrapped max) refl,
)
