-- ===== src/Strlcpy/Total.antt =====
-- rust/src/ffi/strlcpy.rs: the copy of a text that may hold a NUL of its own.
use grip.Common.{
  ℕ, ◌≤◌, ◌≡◌, ◌≢◌, refl, ap, ◌∙◌, inl, inr, Bool-cases, some, [], ◌∷◌, ◌++◌, ◌==◌, length, arith,
  true, false,
}
use grip.Common.Bytes.{Bytes}
use grip.Strlcpy.{strlcpy}
use grip.Strlcpy.Laws.{NoNul, strlcpy_lem}

is_zero : (c : ℕ) → (c == 0) ≡ true → c ≡ 0
is_zero c h = ground arith

is_not_zero : (c : ℕ) → (c == 0) ≡ false → c ≢ 0
is_not_zero c h = ground arith

-- The text up to the first NUL, and what follows it.
cut : (s : Bytes) → (t : Bytes) × (rest : Bytes) × NoNul t × (s ++ 0 ∷ [] ≡ t ++ 0 ∷ rest)
cut [] = ([], [], tt, refl)
cut (c ∷ s) = elim (Bool-cases (c == 0)) [
  | inl z ↦ ([], s ++ 0 ∷ [], tt, ap (λ x. x ∷ s ++ 0 ∷ []) (is_zero c z))
  | inr z ↦ let (t, rest, n, e) = cut s in (c ∷ t, rest, (is_not_zero c z, n), ap (◌∷◌ c) e)
]

-- The copy of any text into a buffer of at least `dsize` bytes touches no memory outside the two.
pub strlcpy-total :
    (s buffer : Bytes) (dsize : ℕ)
    → dsize ≤ length buffer
    → (len : ℕ) × (buffer' : Bytes) × (strlcpy buffer (s ++ 0 ∷ []) dsize ≡ some (len, buffer'))
strlcpy-total s buffer dsize room =
    let (t, rest, n, e) = cut s in
    (_, _, ap (λ x. strlcpy buffer x dsize) e ∙ strlcpy_lem t rest buffer dsize n room)
