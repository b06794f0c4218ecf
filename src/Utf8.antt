-- ===== src/Utf8.antt =====
-- `str::from_utf8` of the standard library, as a test: which byte sequences are well-formed UTF-8.
use grip.Common.{
  Option, none, some, ℕ, zero, suc, Bool, true, false, ◌&&◌, [], ◌∷◌, if◌then◌else◌, leb, ◌==◌,
}
use grip.Common.Bytes.{Bytes}

abbrev between : ℕ → ℕ → ℕ → Bool
between lo hi c = leb lo c && leb c hi

-- The bytes that may follow a lead byte: how many, and the range of the first of them. The ranges
-- leave out overlong forms, surrogates and what lies above U+10FFFF.
pub record Lead : Type 0 where
  more : ℕ
  lo : ℕ
  hi : ℕ

lead : ℕ → Option Lead
lead c =
    if between 0xc2 0xdf c
    then some (record { more = 0; lo = 0x80; hi = 0xbf })
    else if c == 0xe0
    then some (record { more = 1; lo = 0xa0; hi = 0xbf })
    else if c == 0xed
    then some (record { more = 1; lo = 0x80; hi = 0x9f })
    else if between 0xe1 0xef c
    then some (record { more = 1; lo = 0x80; hi = 0xbf })
    else if c == 0xf0
    then some (record { more = 2; lo = 0x90; hi = 0xbf })
    else if between 0xf1 0xf3 c
    then some (record { more = 2; lo = 0x80; hi = 0xbf })
    else if c == 0xf4
    then some (record { more = 2; lo = 0x80; hi = 0x8f })
    else none

-- What the validation waits for: the start of a character, or so many continuation bytes.
pub data Mode : Type 0 where
  start : Mode
  within : Lead → Mode

mode_after : Lead → Mode
mode_after l = elim l.more [
  | zero ↦ start
  | suc n ↦ within (record { more = n; lo = 0x80; hi = 0xbf })
]

accepts : Mode → ℕ → Option Mode
unfolding lead mode_after
accepts start c =
    if leb c 0x7f then some start else elim (lead c) [ none ↦ none | some l ↦ some (within l) ]
accepts (within l) c = if between l.lo l.hi c then some (mode_after l) else none

validate : Mode → Bytes → Bool
unfolding accepts
validate start [] = true
validate (within l) [] = false
validate start (c ∷ s) = elim (accepts start c) [ none ↦ false | some m ↦ validate m s ]
validate (within l) (c ∷ s) = elim (accepts (within l) c) [ none ↦ false | some m ↦ validate m s ]

unfoldable pub is_utf8 : Bytes → Bool
unfolding validate
is_utf8 s = validate start s
