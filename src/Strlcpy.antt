-- ===== src/Strlcpy.antt =====
-- rust/src/ffi/strlcpy.rs: the bounded copy of a C string. A pointer into the source is the list
-- of the bytes from it on, with the number of bytes that it has advanced; a pointer into the
-- destination is an index. `none` is an access outside the memory that was handed over.
pub mod Laws
pub mod Total
mod Tests
use grip.Common.{
  ℕ, zero, suc, ◌+◌, ◌-◌, Option, none, some, List, [], ◌∷◌, if◌then◌else◌, ltb, ◌==◌, length, set,
}
use grip.Common.Bytes.{Bytes}
use grip.Common.Opt.{◌>>=◌}

-- The local variables of the copy: `dst` and its offset, `src` and its offset, `nleft`.
pub record Cursor : Type 0 where
  pub buffer : Bytes
  pub dst : ℕ
  pub src : Bytes
  pub advanced : ℕ
  pub nleft : ℕ

-- `*dst = c`
pub store : Bytes → ℕ → ℕ → Option Bytes
store buffer i c = if ltb i (length buffer) then some (set buffer i c) else none

-- `*src`
pub fetch : Bytes → Option (ℕ × Bytes)
fetch [] = none
fetch (c ∷ src) = some (c, src)

-- The first loop, from its test on: the first argument is `nleft` after the decrement.
unfoldable pub copy_loop : ℕ → Bytes → ℕ → Bytes → ℕ → Option Cursor
unfolding store fetch
copy_loop zero buffer dst src advanced =
    some (record { buffer = buffer; dst = dst; src = src; advanced = advanced; nleft = 0 })
copy_loop (suc n) buffer dst src advanced = do
  (c, src') ← fetch src
  buffer' ← store buffer dst c
  let stop : Cursor = record {
    buffer = buffer';
    dst = dst + 1;
    src = src';
    advanced = advanced + 1;
    nleft = suc n;
  }
  let next = copy_loop n buffer' (dst + 1) src' (advanced + 1)
  if c == 0 then some stop else next

-- The second loop: how far `src` has advanced once the NUL is behind it.
unfoldable pub skip_loop : Bytes → ℕ → Option ℕ
skip_loop [] advanced = none
skip_loop (c ∷ src) advanced =
    let next = skip_loop src (advanced + 1) in if c == 0 then some (advanced + 1) else next

-- What follows the first loop.
unfoldable pub finish : ℕ → Cursor → Option (ℕ × Bytes)
unfolding skip_loop store
finish dsize c =
    if c.nleft == 0
    then (do
      buffer ← if dsize == 0 then some c.buffer else store c.buffer c.dst 0
      advanced ← skip_loop c.src c.advanced
      some (advanced - 1, buffer))
    else some (c.advanced - 1, c.buffer)

-- The result is the returned length and the destination afterwards.
unfoldable pub strlcpy : Bytes → Bytes → ℕ → Option (ℕ × Bytes)
unfolding copy_loop finish
strlcpy buffer src dsize = do
  c ←
      if dsize == 0
      then some (record { buffer = buffer; dst = 0; src = src; advanced = 0; nleft = 0 })
      else copy_loop (dsize - 1) buffer 0 src 0
  finish dsize c
