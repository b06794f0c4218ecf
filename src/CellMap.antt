-- ===== src/CellMap.antt =====
-- rust/src/cell_map.rs: a table from generated handle ids to items. `None` of an `Option` result
-- that a caller unwraps stands for a failed assertion. The counter is an `isize` and wraps.
pub mod Laws
pub mod History
mod Tests
use grip.Common.{
  ℕ, Bool, true, false, Option, none, some, not, ◌||◌, List, [], ◌∷◌, ltb, if◌then◌else◌, is_some,
}
use grip.Common.Int.{ℤ, pos, negsuc, int_eq, wrapping_suc, wrapping_pred}

pub record CellMap {ℓ} (T : Type ℓ) : Type ℓ where
  pub inner : List (ℤ × T)
  pub counter : ℤ

-- The test of the first assertion of `insert_with_unique_id`, `counter >= 1`.
abbrev pub is_positive : ℤ → Bool
is_positive (pos n) = ltb 0 n
is_positive (negsuc n) = false

module _ {ℓ} {T : Type ℓ} where
  -- The operations of the hash map `inner`, on an association list with at most one entry per key.
  unfoldable pub lookup : ℤ → List (ℤ × T) → Option T
  lookup k [] = none
  lookup k ((j, v) ∷ m) = if int_eq j k then some v else lookup k m

  unfoldable pub erase : ℤ → List (ℤ × T) → List (ℤ × T)
  erase k [] = []
  erase k ((j, v) ∷ m) = let rest = erase k m in if int_eq j k then rest else (j, v) ∷ rest

  unfoldable pub replace : ℤ → T → List (ℤ × T) → List (ℤ × T)
  replace k v [] = []
  replace k v ((j, w) ∷ m) = (j, if int_eq j k then v else w) ∷ replace k v m

  unfoldable pub new : CellMap T
  new = record { inner = []; counter = pos 1 }

  unfoldable pub peek_id : CellMap T → ℤ
  peek_id m = m.counter

  -- `none` is a panic: the counter has overflowed, or the id is already taken.
  unfoldable pub insert_with_unique_id : ℕ → CellMap T → T → Option (ℤ × CellMap T)
  unfolding lookup
  insert_with_unique_id max m item =
      let next = wrapping_suc max m.counter in
      let grown : CellMap T = record { inner = (m.counter, item) ∷ m.inner; counter = next } in
      if not (is_positive m.counter) || is_some (lookup m.counter m.inner)
      then none
      else some (wrapping_pred max next, grown)

  unfoldable pub remove_with_id : CellMap T → ℤ → Option T × CellMap T
  unfolding lookup erase
  remove_with_id m id = (lookup id m.inner, record m { inner = erase id m.inner })

  unfoldable pub get_with_id : CellMap T → ℤ → Option T
  unfolding lookup
  get_with_id m id = lookup id m.inner

  -- A write through the reference that `get_mut_with_id` returns.
  unfoldable pub set_with_id : CellMap T → ℤ → T → CellMap T
  unfolding replace
  set_with_id m id item = record m { inner = replace id item m.inner }

  unfoldable pub clear : CellMap T → CellMap T
  clear m = record m { inner = [] }
