-- ===== src/Gc/Equal/Clean.antt =====
-- The equality of rust/src/gc_json.rs reads nothing that is not there.
use grip.Common.{
  ℕ, zero, suc, ◌<◌, ◌≡◌, refl, sym, subst, Bool, true, false, ◌==◌, Option, none, some, List, [],
  ◌∷◌, All, if◌then◌else◌, length,
}
use grip.Common.Bytes.{Bytes}
use grip.Deps.{Deps, Entries}
use grip.Gc.Heap.{InnerValue, Heap}
use grip.Gc.Closed.{Refers, Closed, get-below}
use grip.Gc.Equal.{
  Verdict, is, overflow, dangling, and_also, read, equal_items, equal_member, equal_fields,
  equal_inner, equal_at,
}
use grip.Gc.Equal.Same.{inner-cases}

abbrev pub Clean : Verdict → Type 0
Clean (is b) = Unit
Clean overflow = Unit
Clean dangling = ⊥

and_also-Clean : (u v : Verdict) → Clean u → Clean v → Clean (and_also u v)
unfolding and_also
and_also-Clean (is true) v p q = q
and_also-Clean (is false) v p q = tt
and_also-Clean overflow v p q = tt
and_also-Clean dangling v p q = p

guard-Clean : (t : Bool) (v : Verdict) → Clean v → Clean (if t then v else is false)
guard-Clean true v p = p
guard-Clean false v p = tt

module _ {d : Deps} (number_eq : d.Number → d.Number → Bool) (h : Heap d) (closed : Closed h) where
  module _ (eq : ℕ → ℕ → Verdict)
      (clean : (a b : ℕ) → a < h.next_value → b < h.next_value → Clean (eq a b)) where
    items-Clean :
        (xs ys : List ℕ)
        → All (λ a. a < h.next_value) xs
        → All (λ a. a < h.next_value) ys
        → Clean (equal_items eq xs ys)
    unfolding equal_items
    items-Clean [] ys p q = tt
    items-Clean (a ∷ xs) [] p q = tt
    items-Clean (a ∷ xs) (b ∷ ys) p q =
        and_also-Clean (eq a b) _ (clean a b p.0 q.0) (items-Clean xs ys p.1 q.1)

    member-Clean :
        (n : d.Map) (k : Bytes) (s : ℕ)
        → s < h.next_slot
        → Refers h (InnerValue.object n)
        → Clean (equal_member eq h s (d.get n k))
    unfolding equal_member read
    member-Clean n k s l r = go (d.get n k) refl
      where
        go : (o : Option ℕ) → d.get n k ≡ o → Clean (equal_member eq h s o)
        go none e = tt
        go (some t) e =
            let (a, p, i) = closed.slot s l in
            let (b, q, j) = closed.slot t (get-below h n k t r e) in rw (p, q) (clean a b i j)

    fields-Clean :
        (n : d.Map) (es : Entries)
        → All (λ (p : Bytes × ℕ). p.1 < h.next_slot) es
        → Refers h (InnerValue.object n)
        → Clean (equal_fields eq h n es)
    unfolding equal_fields
    fields-Clean n [] p r = tt
    fields-Clean n ((k, s) ∷ es) p r =
        and_also-Clean (equal_member eq h s (d.get n k)) _ (member-Clean n k s p.0 r)
          (fields-Clean n es p.1 r)

    inner-Clean :
        (v w : InnerValue d) → Refers h v → Refers h w → Clean (equal_inner number_eq eq h v w)
    unfolding equal_inner
    inner-Clean v w =
        inner-cases number_eq h eq (λ a b. Unit {0})
          (λ x y. Refers h x → Refers h y → Clean (equal_inner number_eq eq h x y))
          (record {
            nulls = λ p q. tt;
            bools = λ x y p q. tt;
            numbers = λ x y p q. tt;
            strings = λ x y p q. tt;
            arrays = λ xs ys p q. guard-Clean (length xs == length ys) _ (items-Clean xs ys p q);
            objects =
                λ m n p q. guard-Clean (d.len m == d.len n) _ (fields-Clean n (d.entries m) p q);
            apart = λ x y e f p q. subst Clean (sym e) tt;
          })
          v w

  pub at-Clean :
      (depth a b : ℕ) → a < h.next_value → b < h.next_value → Clean (equal_at number_eq depth h a b)
  unfolding equal_at read
  at-Clean zero a b i j = tt
  at-Clean (suc depth) a b i j =
      let (v, p, r) = closed.value a i in
      let (w, q, s) = closed.value b j in
      rw (p, q) (inner-Clean (equal_at number_eq depth h) (at-Clean depth) v w r s)
