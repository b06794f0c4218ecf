-- ===== src/CellMap/Tests.antt =====
-- The theorems at small tables.
use grip.Common.{ℕ, ◌≡◌, refl, none, some, Option, List, [], ◌∷◌, arith}
use grip.Common.Int.{ℤ, pos}
use grip.CellMap.{CellMap, insert_with_unique_id, get_with_id, lookup}
use grip.CellMap.Laws.{IsValid}
use grip.CellMap.History.{
  Op, insert, remove, write, wipe, insert-Inserted, Inserted, run-Ran, Ran, insert_overflow,
}

abbrev isize_max : ℕ
isize_max = 0x7fff_ffff

-- Two bodies, the first of them destroyed.
abbrev two_bodies : CellMap ℕ
two_bodies = record { inner = (pos 2, 20) ∷ []; counter = pos 3 }

two_bodies-IsValid : IsValid 3 two_bodies
unfolding get_with_id lookup
two_bodies-IsValid = record {
  counter = refl;
  positive = omega arith;
  fresh = λ k h. ground arith;
  signed = λ k. refl;
}

-- A table whose counter has reached the largest cell of 3 bits.
abbrev full : CellMap ℕ
full = record { inner = []; counter = pos 3 }

full-IsValid : IsValid 3 full
unfolding get_with_id lookup
full-IsValid = record {
  counter = refl;
  positive = omega arith;
  fresh = λ k h. refl;
  signed = λ k. refl;
}

third_id : Option (ℤ × CellMap ℕ)
third_id = insert_with_unique_id isize_max two_bodies 30

third_id_lem :
    third_id ≡ some (pos 3, record { inner = (pos 3, 30) ∷ (pos 2, 20) ∷ []; counter = pos 4 })
unfolding third_id insert_with_unique_id lookup
third_id_lem = refl

insert-Inserted_example :
    (m' : CellMap ℕ) × (insert_with_unique_id isize_max two_bodies 30 ≡ some (pos 3, m'))
    × Inserted two_bodies 30 (pos 3) m'
insert-Inserted_example = insert-Inserted isize_max 3 two_bodies 30 two_bodies-IsValid (omega arith)

abbrev history : List (Op ℕ)
history = insert 30 ∷ remove (pos 2) ∷ write (pos 3) 31 ∷ insert 40 ∷ wipe ∷ []

run-Ran_example : (m' : CellMap ℕ) × Ran isize_max 3 two_bodies history m'
run-Ran_example = run-Ran isize_max 3 two_bodies history two_bodies-IsValid (omega arith)

insert_overflow_example :
    (m' : CellMap ℕ) × (insert_with_unique_id 3 full 7 ≡ some (pos 3, m'))
    × (insert_with_unique_id 3 m' 8 ≡ none)
insert_overflow_example = insert_overflow 3 full 7 8 full-IsValid
