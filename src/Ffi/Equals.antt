-- ===== src/Ffi/Equals.antt =====
-- rust/src/ffi/mod.rs: `grip_json_equals`.
pub mod Ending
mod Tests
use grip.Common.{
  sym, ℕ, zero, suc, ◌≡◌, refl, ap, ◌∙◌, Bool, true, false, some, List, ◌∷◌, if◌then◌else◌, length,
}
use grip.Common.Int.{ℤ, pos}
use grip.Errors.{Message}
use grip.Env.{Env}
use grip.CellMap.{get_with_id}
use grip.Deps.{Deps}
use grip.Gc.Heap.{InnerValue, Heap}
use grip.Gc.Equal.{
  Verdict, is, overflow, dangling, equal_at, equal_inner, equal_items, and_also, read,
}
use grip.Gc.Equal.Same.{Same, at-Decides, same_count}
use grip.Ffi.World.{
  World, ModuleStorage, done, panic, M, pure, panics, faults, ◌>>=◌, unwrap, exported, returned,
}
use grip.Ffi.Ext.{get_module, try_and_log_ffi, chain_err}

-- A stack that overflows ends the process, as the outcome `panic` does here.
unfoldable pub answer : {e : Env} → Verdict → M e ℤ
answer (is true) = pure (pos 1)
answer (is false) = pure (pos 0)
answer overflow = panics
answer dangling = faults

-- `number_eq` is the equality of serde_json's numbers, and `depth` the room on the stack. `value2` is
-- on the left of the comparison.
unfoldable pub grip_json_equals : {e : Env} → (e.Number → e.Number → Bool) → ℕ → ℤ → ℤ → M e ℤ
unfolding get_module try_and_log_ffi equal_at answer
grip_json_equals number_eq depth value1 value2 = exported do
  m ← get_module
  a ←
      try_and_log_ffi
        (chain_err (get_with_id m.json_handles value1) (Message.invalid_value1 value1))
  n ← get_module
  b ←
      try_and_log_ffi
        (chain_err (get_with_id n.json_handles value2) (Message.invalid_value2 value2))
  λ w. answer (equal_at number_eq depth w.heap b a) w

module _ {e : Env} (number_eq : e.Number → e.Number → Bool) (depth : ℕ) where
  returned-answer : (v : Verdict) (w : World e) → returned (answer v w) ≡ answer v w
  unfolding answer
  returned-answer (is true) w = refl
  returned-answer (is false) w = refl
  returned-answer overflow w = refl
  returned-answer dangling w = refl

  yes-answer : (v : Verdict) (w : World e) → answer v w ≡ done (pos 1) w → v ≡ is true
  unfolding answer
  yes-answer (is true) w q = refl
  yes-answer (is false) w q = absurd cc
  yes-answer overflow w q = absurd cc
  yes-answer dangling w q = absurd cc

  equals-answer :
      (w : World e) (m : ModuleStorage e) (a b : ℕ) (value1 value2 : ℤ)
      → w.storage ≡ some m
      → get_with_id m.json_handles value1 ≡ some a
      → get_with_id m.json_handles value2 ≡ some b
      → grip_json_equals number_eq depth value1 value2 w
        ≡ answer (equal_at number_eq depth w.heap b a) w
  unfolding grip_json_equals get_module try_and_log_ffi
  equals-answer w m a b value1 value2 s g₁ g₂ =
      let seen : get_module w ≡ done m w = ap (λ o. unwrap o w) s in
      rw (grip_json_equals, seen)
        (rw g₁ (rw seen (rw g₂ (returned-answer (equal_at number_eq depth w.heap b a) w))))

-- `grip_json_equals` returns 1 and changes nothing exactly where its handles lead to values that are
-- the same and whose nested levels fit the stack: the same kind, equal truth values, numbers and
-- texts, arrays of one length with the same values in order, and objects with as many members where
-- each member of the one has the same value under its name in the other, in whatever order.
pub equals-Same :
    {e : Env} (number_eq : e.Number → e.Number → Bool) (w : World e) (m : ModuleStorage e)
    (depth a b : ℕ) (value1 value2 : ℤ)
    → w.storage ≡ some m
    → get_with_id m.json_handles value1 ≡ some a
    → get_with_id m.json_handles value2 ≡ some b
    → (grip_json_equals number_eq depth value1 value2 w ≡ done (pos 1) w
        → Same number_eq w.heap depth b a)
      × (Same number_eq w.heap depth b a
          → grip_json_equals number_eq depth value1 value2 w ≡ done (pos 1) w)
unfolding answer
equals-Same number_eq w m depth a b value1 value2 s g₁ g₂ =
    let q = equals-answer number_eq depth w m a b value1 value2 s g₁ g₂ in
    let both = at-Decides number_eq w.heap depth b a in
    (
      λ r. both.0 (yes-answer number_eq depth _ w (sym q ∙ r)),
      λ x. q ∙ ap (λ v. answer v w) (both.1 x),
    )

-- An array whose first element is the array itself.
at-cyclic :
    {d : Deps} (number_eq : d.Number → d.Number → Bool) (h : Heap d) (depth a : ℕ) (rest : List ℕ)
    → h.value a ≡ some (InnerValue.array (a ∷ rest))
    → equal_at number_eq depth h a a ≡ overflow
unfolding equal_at equal_inner equal_items and_also read
at-cyclic number_eq h zero a rest e = refl
at-cyclic number_eq h (suc depth) a rest e =
    rw e (
      rw (same_count {n = length (a ∷ rest)} refl) (rw (at-cyclic number_eq h depth a rest e) refl))

-- An array whose first element is the array itself, behind two handles: no stack is large enough
-- for `grip_json_equals`.
pub equals-cyclic :
    {e : Env} (number_eq : e.Number → e.Number → Bool) (w : World e) (m : ModuleStorage e)
    (depth a : ℕ) (rest : List ℕ) (value1 value2 : ℤ)
    → w.storage ≡ some m
    → get_with_id m.json_handles value1 ≡ some a
    → get_with_id m.json_handles value2 ≡ some a
    → w.heap.value a ≡ some (InnerValue.array (a ∷ rest))
    → grip_json_equals number_eq depth value1 value2 w ≡ panic w
unfolding answer
equals-cyclic number_eq w m depth a rest value1 value2 s g₁ g₂ x =
    equals-answer number_eq depth w m a a value1 value2 s g₁ g₂
    ∙ ap (λ v. answer v w) (at-cyclic number_eq w.heap depth a rest x)
