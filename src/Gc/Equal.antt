-- ===== src/Gc/Equal.antt =====
-- rust/src/gc_json.rs: the equality that `GCValue` and `InnerValue` derive.
pub mod Same
pub mod Clean
use grip.Common.{
  ℕ, zero, suc, Bool, true, false, ◌==◌, Option, none, some, List, [], ◌∷◌, if◌then◌else◌, length,
}
use grip.Common.Bytes.{Bytes, bytes_eq}
use grip.Deps.{Deps, Entries}
use grip.Gc.Heap.{InnerValue, Heap}

-- How a comparison ends: with an answer, with no room left on the stack, or at a cell that is not
-- there.
pub data Verdict : Type 0 where
  is : Bool → Verdict
  overflow dangling : Verdict

-- `&&`
unfoldable pub and_also : Verdict → Verdict → Verdict
and_also (is true) v = v
and_also (is false) v = is false
and_also overflow v = overflow
and_also dangling v = dangling

unfoldable pub read : {A : Type 0} → Option A → (A → Verdict) → Verdict
read none f = dangling
read (some a) f = f a

-- Two truth values.
unfoldable pub same_bool : Bool → Bool → Bool
same_bool true b = b
same_bool false true = false
same_bool false false = true

-- Two slices of one length.
unfoldable pub equal_items : (ℕ → ℕ → Verdict) → List ℕ → List ℕ → Verdict
unfolding and_also
equal_items eq [] ys = is true
equal_items eq (a ∷ xs) [] = is true
equal_items eq (a ∷ xs) (b ∷ ys) = and_also (eq a b) (equal_items eq xs ys)

module _ {d : Deps} where
  -- Every member of one map has an equal one in the other, `n`.
  unfoldable pub equal_member : (ℕ → ℕ → Verdict) → Heap d → ℕ → Option ℕ → Verdict
  unfolding read
  equal_member eq h s none = is false
  equal_member eq h s (some t) = read (h.slot s) (λ a. read (h.slot t) (λ b. eq a b))

  unfoldable pub equal_fields : (ℕ → ℕ → Verdict) → Heap d → d.Map → Entries → Verdict
  unfolding and_also equal_member
  equal_fields eq h n [] = is true
  equal_fields eq h n ((k, s) ∷ es) =
      and_also (equal_member eq h s (d.get n k)) (equal_fields eq h n es)

  -- Lengths are compared first.
  unfoldable pub equal_inner :
      (d.Number → d.Number → Bool)
      → (ℕ → ℕ → Verdict)
      → Heap d
      → InnerValue d
      → InnerValue d
      → Verdict
  unfolding equal_items equal_fields same_bool
  equal_inner number_eq eq h InnerValue.null InnerValue.null = is true
  equal_inner number_eq eq h (InnerValue.bool x) (InnerValue.bool y) = is (same_bool x y)
  equal_inner number_eq eq h (InnerValue.number x) (InnerValue.number y) = is (number_eq x y)
  equal_inner number_eq eq h (InnerValue.string x) (InnerValue.string y) = is (bytes_eq x y)
  equal_inner number_eq eq h (InnerValue.array xs) (InnerValue.array ys) =
      if length xs == length ys then equal_items eq xs ys else is false
  equal_inner number_eq eq h (InnerValue.object m) (InnerValue.object n) =
      if d.len m == d.len n then equal_fields eq h n (d.entries m) else is false
  equal_inner number_eq eq h _ _ = is false

  -- The first argument is the number of nested comparisons that the stack has room for.
  unfoldable pub equal_at : (d.Number → d.Number → Bool) → ℕ → Heap d → ℕ → ℕ → Verdict
  unfolding equal_inner read
  equal_at number_eq zero h a b = overflow
  equal_at number_eq (suc depth) h a b =
      read (h.value a)
        (λ v. read (h.value b) (λ w. equal_inner number_eq (equal_at number_eq depth h) h v w))
