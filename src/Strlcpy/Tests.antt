-- ===== src/Strlcpy/Tests.antt =====
-- `strlcpy` at short texts, and its theorems there.
use grip.Common.{◌≡◌, refl, none, some, [], ◌∷◌, ◌++◌, arith}
use grip.Common.Bytes.{Bytes}
use grip.Strlcpy.{strlcpy}
use grip.Strlcpy.Laws.{strlcpy_lem}

abbrev abc : Bytes
abc = b'a' ∷ b'b' ∷ b'c' ∷ []

abbrev buffer : Bytes
buffer = 1 ∷ 2 ∷ 3 ∷ 4 ∷ 5 ∷ []

truncated : strlcpy buffer (b'a' ∷ b'b' ∷ b'c' ∷ 0 ∷ []) 3 ≡ some (3, b'a' ∷ b'b' ∷ 0 ∷ 4 ∷ 5 ∷ [])
unfolding strlcpy
truncated = refl

-- A source with no NUL is read past its end.
unterminated : strlcpy buffer abc 3 ≡ none
unfolding strlcpy
unterminated = refl

strlcpy_lem_example :
    strlcpy buffer (abc ++ 0 ∷ 9 ∷ []) 5 ≡ some (3, b'a' ∷ b'b' ∷ b'c' ∷ 0 ∷ 5 ∷ [])
strlcpy_lem_example = strlcpy_lem abc (9 ∷ []) buffer 5 (omega arith) (omega arith)
