-- ===== src/CellMap/Laws.antt =====
-- The hash map's laws, and the validity of a `CellMap` whose counter has not overflowed.
use grip.Common.{
  true, not, ◌||◌, Bool-cases, inl, inr, sym, ap, ◌+◌, refl, ◌∙◌, ℕ, ◌≤◌, ◌<◌, ◌≡◌, none, some,
  List, [], ◌∷◌, arith, if◌then◌else◌, is_some,
}
use mathlib.Core.Option.{some-injective, some-ne-none}
use grip.Common.Int.{ℤ, pos, negsuc, int_eq, int_eq_iff, wrapping_suc, wrapping_pred}
use grip.CellMap.{
  is_positive, CellMap, lookup, erase, replace, new, insert_with_unique_id, remove_with_id,
  get_with_id, set_with_id, clear,
}

module _ {ℓ} {T : Type ℓ} where
  pub lookup-erase :
      (k j : ℤ) (m : List (ℤ × T))
      → lookup j (erase k m) ≡ (if int_eq k j then none else lookup j m)
  unfolding lookup erase
  lookup-erase k j [] = ground arith
  lookup-erase k j ((i, v) ∷ m) =
      ground (arith, int_eq_iff k j, int_eq_iff i k, int_eq_iff i j, lookup-erase k j m)

  pub erase-none : (k : ℤ) (m : List (ℤ × T)) → lookup k m ≡ none → erase k m ≡ m
  unfolding lookup erase
  erase-none k [] h = refl
  erase-none k ((i, v) ∷ m) h = ground (arith, erase-none k m)

  pub lookup-replace :
      (k j : ℤ) (v : T) (m : List (ℤ × T))
      → lookup j (replace k v m)
        ≡ (if int_eq k j then if is_some (lookup j m) then some v else none else lookup j m)
  unfolding lookup replace
  lookup-replace k j v [] = ground arith
  lookup-replace k j v ((i, w) ∷ m) =
      ground (arith, int_eq_iff k j, int_eq_iff i k, int_eq_iff i j, lookup-replace k j v m)

-- An id that has been given out while the counter stands at `n`: it lies in 1 … n - 1.
abbrev pub Issued : ℕ → ℤ → Type 0
Issued n (pos k) = (1 ≤ k) × (k < n)
Issued n (negsuc k) = ⊥

is_positive_pos : (n : ℕ) → 1 ≤ n → is_positive (pos n) ≡ true
is_positive_pos n h = ground arith

pred-suc : (max n : ℕ) → n ≤ max → wrapping_pred max (wrapping_suc max (pos n)) ≡ pos n
pred-suc max n h = ground arith

-- The counter stands at `n` and has not overflowed, and no id but the issued ones is in use.
pub record IsValid {ℓ} {T : Type ℓ} (n : ℕ) (m : CellMap T) : Type ℓ where
  pub counter : m.counter ≡ pos n
  pub positive : 1 ≤ n
  pub fresh : (k : ℕ) → n ≤ k → get_with_id m (pos k) ≡ none
  pub signed : (k : ℕ) → get_with_id m (negsuc k) ≡ none

module _ {ℓ} {T : Type ℓ} where
  -- A new table has issued nothing.
  pub new-IsValid : IsValid {T = T} 1 new
  unfolding new get_with_id
  new-IsValid = record {
    counter = refl;
    positive = omega arith;
    fresh = λ k h. refl;
    signed = λ k. refl;
  }

  -- What `insert_with_unique_id` leaves behind while the counter is in range.
  abbrev pub inserted : ℕ → CellMap T → T → CellMap T
  inserted max m item = record {
    inner = (m.counter, item) ∷ m.inner;
    counter = wrapping_suc max m.counter;
  }

  pub insert-eq :
      (max n : ℕ) (m : CellMap T) (item : T)
      → IsValid n m
      → n ≤ max
      → insert_with_unique_id max m item ≡ some (pos n, inserted max m item)
  unfolding insert_with_unique_id get_with_id
  insert-eq max n m item v h =
      let e : lookup (pos n) m.inner ≡ none = v.fresh n (omega arith) in
      rw v.counter (rw (e, is_positive_pos n v.positive, pred-suc max n h) refl)

  pub get-inserted :
      (max n : ℕ) (m : CellMap T) (item : T) (j : ℤ)
      → IsValid n m
      → get_with_id (inserted max m item) j
        ≡ (if int_eq (pos n) j then some item else get_with_id m j)
  unfolding get_with_id
  get-inserted max n m item j v = rw v.counter

  pub inserted-IsValid :
      (max n : ℕ) (m : CellMap T) (item : T)
      → IsValid n m
      → n < max
      → IsValid (n + 1) (inserted max m item)
  inserted-IsValid max n m item v h = record {
    counter = rw v.counter (ground arith);
    positive = omega arith;
    fresh = λ k le. get-inserted max n m item (pos k) v ∙ ground (arith, v.fresh k);
    signed = λ k. get-inserted max n m item (negsuc k) v ∙ v.signed k;
  }

  pub get-remove :
      (m : CellMap T) (k j : ℤ)
      → get_with_id (remove_with_id m k).1 j ≡ (if int_eq k j then none else get_with_id m j)
  unfolding get_with_id remove_with_id
  get-remove m k j = lookup-erase k j m.inner

  pub get-set :
      (m : CellMap T) (k : ℤ) (v : T) (j : ℤ)
      → get_with_id (set_with_id m k v) j ≡ (
          if int_eq k j
          then if is_some (get_with_id m j) then some v else none
          else get_with_id m j)
  unfolding get_with_id set_with_id
  get-set m k v j = lookup-replace k j v m.inner

  pub remove-IsValid :
      (n : ℕ) (m : CellMap T) (k : ℤ) → IsValid n m → IsValid n (remove_with_id m k).1
  unfolding remove_with_id
  remove-IsValid n m k v = record {
    counter = v.counter;
    positive = v.positive;
    fresh = λ j le. get-remove m k (pos j) ∙ ground (arith, v.fresh j);
    signed = λ j. get-remove m k (negsuc j) ∙ ground (arith, v.signed j);
  }

  pub set-IsValid :
      (n : ℕ) (m : CellMap T) (k : ℤ) (t : T) → IsValid n m → IsValid n (set_with_id m k t)
  unfolding set_with_id
  set-IsValid n m k t v = record {
    counter = v.counter;
    positive = v.positive;
    fresh = λ j le. get-set m k t (pos j) ∙ ground (arith, v.fresh j);
    signed = λ j. get-set m k t (negsuc j) ∙ ground (arith, v.signed j);
  }

  pub clear-IsValid : (n : ℕ) (m : CellMap T) → IsValid n m → IsValid n (clear m)
  unfolding clear get_with_id lookup
  clear-IsValid n m v = record {
    counter = v.counter;
    positive = v.positive;
    fresh = λ k h. refl;
    signed = λ k. refl;
  }

  pub get-clear : (m : CellMap T) (j : ℤ) → get_with_id (clear m) j ≡ none
  unfolding clear get_with_id lookup
  get-clear m j = refl

  -- What any insertion that does not panic does to the ids.
  pub insert-get :
      (max : ℕ) (m : CellMap T) (item : T) (id : ℤ) (m' : CellMap T) (j : ℤ)
      → insert_with_unique_id max m item ≡ some (id, m')
      → get_with_id m' j ≡ (if int_eq m.counter j then some item else get_with_id m j)
  unfolding insert_with_unique_id get_with_id lookup
  insert-get max m item id m' j e =
      elim (Bool-cases (not (is_positive m.counter) || is_some (lookup m.counter m.inner))) [
        | inl bad ↦ absurd (some-ne-none _ (sym e ∙ rw bad refl))
        | inr fine ↦
            let q = some-injective _ _ (rw fine at e) in
            ap (λ (p : ℤ × CellMap T). lookup j p.1.inner) (sym q)
      ]
