-- ===== src/Common/Lists.antt =====
-- Lists measured and indexed by native numbers, under the library's names.
use mathlib.Core.Option.{some-injective, some-ne-none}
use Prim.Native.Nat.{ℕ, zero, suc, ◌+◌, min}
use mathlib.Core.Path.{◌≡◌, refl, sym, ap, subst}
use mathlib.Core.List.{List, [], ◌∷◌, ◌++◌}
use mathlib.Core.Option.{Option, none, some}
use native.Mathlib.Omega.{arith}

module _ {ℓ} {A : Type ℓ} where
  abbrev pub length : List A → ℕ
  length [] = 0
  length (x ∷ xs) = suc (length xs)

  abbrev pub get_elem? : List A → ℕ → Option A
  get_elem? [] i = none
  get_elem? (x ∷ xs) zero = some x
  get_elem? (x ∷ xs) (suc i) = get_elem? xs i

  -- A write out of bounds changes nothing.
  abbrev pub set : List A → ℕ → A → List A
  set [] i v = []
  set (x ∷ xs) zero v = v ∷ xs
  set (x ∷ xs) (suc i) v = x ∷ set xs i v

  abbrev pub take : ℕ → List A → List A
  take zero xs = []
  take (suc n) [] = []
  take (suc n) (x ∷ xs) = x ∷ take n xs

  abbrev pub drop : ℕ → List A → List A
  drop zero xs = xs
  drop (suc n) [] = []
  drop (suc n) (x ∷ xs) = drop n xs

  abbrev pub All {κ} : (A → Type κ) → List A → Type κ
  All P [] = Unit
  All P (x ∷ xs) = P x × All P xs

  pub length-append : (xs ys : List A) → length (xs ++ ys) ≡ length xs + length ys
  length-append [] ys = omega arith
  length-append (x ∷ xs) ys = omega (arith, length-append xs ys)

  pub length-set : (xs : List A) (i : ℕ) (v : A) → length (set xs i v) ≡ length xs
  length-set [] i v = refl
  length-set (x ∷ xs) zero v = refl
  length-set (x ∷ xs) (suc i) v = ap suc (length-set xs i v)

  pub length-take : (n : ℕ) (xs : List A) → length (take n xs) ≡ min n (length xs)
  length-take zero xs = omega arith
  length-take (suc n) [] = omega arith
  length-take (suc n) (x ∷ xs) = omega (arith, length-take n xs)

  -- `Vec::remove`: `none` is its panic out of range.
  abbrev pub vec_remove : ℕ → List A → Option (List A)
  vec_remove i [] = none
  vec_remove zero (x ∷ xs) = some xs
  vec_remove (suc i) (x ∷ xs) = elim (vec_remove i xs) [ none ↦ none | some ys ↦ some (x ∷ ys) ]

module _ {ℓ κ} {A : Type ℓ} (P : A → Type κ) where
  pub All-append : (xs ys : List A) → All P xs → All P ys → All P (xs ++ ys)
  All-append [] ys h k = k
  All-append (x ∷ xs) ys h k = (h.0, All-append xs ys h.1 k)

  pub All-snoc : (xs : List A) (y : A) → All P xs → P y → All P (xs ++ y ∷ [])
  All-snoc xs y h k = All-append xs (y ∷ []) h (k, tt)

  -- An item in the middle of a list, and the others.
  All-middle : (xs ys : List A) (y : A) → All P (xs ++ y ∷ ys) → P y × All P (xs ++ ys)
  All-middle [] ys y h = h
  All-middle (x ∷ xs) ys y h = let (p, rest) = All-middle xs ys y h.1 in (p, (h.0, rest))

  pub All-split :
      (before after xs : List A) (y : A)
      → xs ≡ before ++ y ∷ after
      → All P xs
      → P y × All P (before ++ after)
  All-split before after xs y e h = All-middle before after y (subst (All P) e h)

module _ {ℓ κ} {A : Type ℓ} (P : A → Type κ) where
  pub All-set : (xs : List A) (i : ℕ) (v : A) → All P xs → P v → All P (set xs i v)
  All-set [] i v h p = tt
  All-set (x ∷ xs) zero v h p = (p, h.1)
  All-set (x ∷ xs) (suc i) v h p = (h.0, All-set xs i v h.1 p)

  pub All-vec_remove : (i : ℕ) (xs ys : List A) → vec_remove i xs ≡ some ys → All P xs → All P ys
  All-vec_remove i [] ys e h = absurd cc
  All-vec_remove zero (x ∷ xs) ys e h = subst (All P) (some-injective _ _ e) h.1
  All-vec_remove (suc i) (x ∷ xs) ys e h =
      go (vec_remove i xs) (λ zs p. All-vec_remove i xs zs p h.1) e
    where
      go :
          (o : Option (List A))
          → ((zs : List A) → o ≡ some zs → All P zs)
          → ◌≡◌ {A = Option (List A)} (elim o [ none ↦ none | some zs ↦ some (x ∷ zs) ]) (some ys)
          → All P ys
      go none rest q = absurd cc
      go (some zs) rest q = subst (All P) (some-injective _ _ q) (h.0, rest zs refl)

pub All_elem {ℓ κ} :
    {A : Type ℓ} (P : A → Type κ) (xs : List A) (i : ℕ) (x : A)
    → All P xs
    → get_elem? xs i ≡ some x
    → P x
All_elem P [] i x h e = absurd (some-ne-none x (sym e))
All_elem P (y ∷ ys) zero x h e = subst P (some-injective _ _ e) h.0
All_elem P (y ∷ ys) (suc i) x h e = All_elem P ys i x h.1 e

pub All-map {ℓ κ ι} :
    {A : Type ℓ} {P : A → Type κ} {Q : A → Type ι} (xs : List A)
    → ((x : A) → P x → Q x)
    → All P xs
    → All Q xs
All-map [] f h = tt
All-map (x ∷ xs) f h = (f x h.0, All-map xs f h.1)
