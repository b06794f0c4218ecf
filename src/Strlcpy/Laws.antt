-- ===== src/Strlcpy/Laws.antt =====
-- What `strlcpy` computes.
use grip.Common.{
  ℕ, zero, suc, ◌+◌, ◌-◌, ◌≤◌, ◌<◌, ◌≡◌, ◌≢◌, refl, ap, some, [], ◌∷◌, ◌++◌, arith, append_assoc,
  if◌then◌else◌, ◌==◌, length, set, take, drop, All, length-append,
}
use grip.Common.Bytes.{Bytes, c_string}
use grip.Common.Opt.{◌>>=◌}
use grip.Strlcpy.{store, copy_loop, skip_loop, finish, strlcpy}

-- A C string's bytes: no NUL among them.
abbrev pub NoNul : Bytes → Type 0
NoNul = All (λ c. c ≢ 0)

set-append : (xs ys : Bytes) (y v : ℕ) → set (xs ++ y ∷ ys) (length xs) v ≡ xs ++ v ∷ ys
set-append [] ys y v = refl
set-append (x ∷ xs) ys y v = ap (◌∷◌ x) (set-append xs ys y v)

store-append : (xs ys : Bytes) (y v : ℕ) → store (xs ++ y ∷ ys) (length xs) v ≡ some (xs ++ v ∷ ys)
unfolding store
store-append xs ys y v = ground (arith, length-append xs (y ∷ ys), set-append xs ys y v)

skip_loop-NoNul :
    (s rest : Bytes) (n : ℕ) → NoNul s → skip_loop (s ++ 0 ∷ rest) n ≡ some (n + length s + 1)
unfolding skip_loop
skip_loop-NoNul [] rest n h = ground arith
skip_loop-NoNul (c ∷ s) rest n h = ground (arith, skip_loop-NoNul s rest (n + 1) h.1)

-- The bytes that a copy of `s` with room for `n` bytes and a NUL leaves in a buffer `todo`.
abbrev pub filled : ℕ → Bytes → Bytes → Bytes
filled n s todo = take n s ++ 0 ∷ drop (suc (length (take n s))) todo

copied :
    (n : ℕ) (s rest before todo : Bytes) (dsize advanced : ℕ)
    → NoNul s
    → n < length todo
    → 0 < dsize
    → (copy_loop n (before ++ todo) (length before) (s ++ 0 ∷ rest) advanced >>= finish dsize)
      ≡ some (advanced + length s, before ++ filled n s todo)
unfolding copy_loop finish store
copied zero s rest before [] dsize advanced h room pos = absurd (omega arith)
copied zero s rest before (t ∷ todo) dsize advanced h room pos = ground (
  arith,
  length-append before (t ∷ todo),
  set-append before todo t 0,
  skip_loop-NoNul s rest advanced h,
)
copied (suc n) s rest before [] dsize advanced h room pos = absurd (omega arith)
copied (suc n) [] rest before (t ∷ todo) dsize advanced h room pos =
    ground (arith, length-append before (t ∷ todo), set-append before todo t 0)
copied (suc n) (c ∷ s) rest before (t ∷ todo) dsize advanced h room pos = ground (
  arith,
  length-append before (t ∷ todo),
  length-append before (c ∷ []),
  set-append before todo t c,
  append_assoc before (c ∷ []) todo,
  append_assoc before (c ∷ []) (filled n s todo),
  copied n s rest (before ++ c ∷ []) todo dsize (advanced + 1) h.1,
)

-- Given a source whose C string is `s` and a buffer of at least `dsize` bytes, `strlcpy` touches no
-- memory outside the two and returns the length of `s`. For `dsize` 0 the buffer is unchanged;
-- otherwise it holds the first `dsize` - 1 bytes of `s` (all of `s` if it is shorter), then a NUL,
-- and behind that what it held.
pub strlcpy_lem :
    (s rest buffer : Bytes) (dsize : ℕ)
    → NoNul s
    → dsize ≤ length buffer
    → strlcpy buffer (s ++ 0 ∷ rest) dsize
      ≡ some (length s, if dsize == 0 then buffer else filled (dsize - 1) s buffer)
unfolding strlcpy
strlcpy_lem s rest buffer zero h room = ground (arith, skip_loop-NoNul s rest 0 h)
strlcpy_lem s rest buffer (suc n) h room = ground (arith, copied n s rest [] buffer (suc n) 0 h)

pub length-filled :
    (n : ℕ) (s todo : Bytes) → n < length todo → length (filled n s todo) ≡ length todo
length-filled zero s [] h = elim h [ ]
length-filled zero s (t ∷ todo) h = refl
length-filled (suc n) s [] h = elim h [ ]
length-filled (suc n) [] (t ∷ todo) h = refl
length-filled (suc n) (c ∷ s) (t ∷ todo) h = ap suc (length-filled n s todo (omega arith))

-- A copy is NUL-terminated, and its C string is what was copied.
pub c_string-filled :
    (n : ℕ) (s todo : Bytes) → NoNul s → c_string (filled n s todo) ≡ some (take n s)
unfolding c_string
c_string-filled zero s todo h = refl
c_string-filled (suc n) [] todo h = refl
c_string-filled (suc n) (c ∷ s) [] h = ground (arith, c_string-filled n s [] h.1)
c_string-filled (suc n) (c ∷ s) (t ∷ todo) h = ground (arith, c_string-filled n s todo h.1)
