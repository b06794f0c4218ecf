-- ===== src/Gc/Clone.antt =====
-- What `deep_clone_with_recursion_limit` makes: a copy in cells of its own.
use grip.Common.{ℕ, zero, suc, ◌≡◌, ◌<◌, ◌≤◌, ◌∙◌, Option, some, List, [], ◌∷◌, arith}
use native.Mathlib.Decide.{dec_lt}
use grip.Common.Opt.{>>=-eq-some}
use grip.Deps.{Deps, Entries}
use grip.Gc.Value.{Value, Items, Fields}
use grip.Gc.Heap.{InnerValue, Heap, alloc, alloc_slot, IsHeap, Extends}
use grip.Gc.Convert.{into_items, into_fields, into_inner, into_at}

-- `k` agrees with `h'` on the cells that `h'` has beyond those of `h`. The cells of `h` itself may
-- have been overwritten in `k`.
pub record Keeps {d : Deps} (h h' k : Heap d) : Type 0 where
  pub value : (a : ℕ) → h.next_value ≤ a → a < h'.next_value → k.value a ≡ h'.value a
  pub slot : (s : ℕ) → h.next_slot ≤ s → s < h'.next_slot → k.slot s ≡ h'.slot s

module _ {d : Deps} where
  pub Keeps-inner :
      {h₀ h₁ h₂ h₃ k : Heap d} → Extends h₀ h₁ → Extends h₂ h₃ → Keeps h₀ h₃ k → Keeps h₁ h₂ k
  Keeps-inner p q s = record {
    value = λ a l r. s.value a (omega arith) (omega arith) ∙ q.value a r;
    slot = λ a l r. s.slot a (omega arith) (omega arith) ∙ q.slot a r;
  }

  pub alloc-Keeps :
      (v : InnerValue d) {h : Heap d} (h' : Heap d) {k : Heap d}
      → Extends h h'
      → Keeps h (alloc v h').1 k
      → k.value (alloc v h').0 ≡ some v
  unfolding alloc
  alloc-Keeps v h' e s = s.value h'.next_value (omega arith) (omega arith) ∙ ground arith

  pub alloc_slot-Keeps :
      (b : ℕ) {h : Heap d} (h' : Heap d) {k : Heap d}
      → Extends h h'
      → Keeps h (alloc_slot b h').1 k
      → k.slot (alloc_slot b h').0 ≡ some b
  unfolding alloc_slot
  alloc_slot-Keeps v h' e s = s.slot h'.next_slot (omega arith) (omega arith) ∙ ground arith

  -- What is in use stays readable in a later heap.
  value-Extends :
      {h k : Heap d} (a : ℕ) {v : InnerValue d}
      → IsHeap h
      → Extends h k
      → h.value a ≡ some v
      → k.value a ≡ some v
  value-Extends {h} a w e got = elim (dec_lt a h.next_value) [
    | yes l ↦ e.value a l ∙ got
    | no l ↦ absurd (ground (arith, w.values a))
  ]

  slot-Extends :
      {h k : Heap d} (s : ℕ) {a : ℕ}
      → IsHeap h
      → Extends h k
      → h.slot s ≡ some a
      → k.slot s ≡ some a
  slot-Extends {h} s w e got = elim (dec_lt s h.next_slot) [
    | yes l ↦ e.slot s l ∙ got
    | no l ↦ absurd (ground (arith, w.slots s))
  ]

  -- A conversion that reads on: what it gives in `h`, it gives in `k`.
  abbrev pub ReadsOn : (ℕ → Option (Value d)) → (ℕ → Option (Value d)) → Type 0
  ReadsOn f g = (a : ℕ) (x : Value d) → f a ≡ some x → g a ≡ some x

  pub into_items-on :
      (f g : ℕ → Option (Value d)) (cells : List ℕ) (xs : Items d)
      → ReadsOn f g
      → into_items f cells ≡ some xs
      → into_items g cells ≡ some xs
  unfolding into_items
  into_items-on f g [] xs on e = e
  into_items-on f g (a ∷ cells) xs on e =
      let (x, ex, rest) = >>=-eq-some (f a) _ e in
      let (ys, ey, last) = >>=-eq-some (into_items f cells) _ rest in
      rw (on a x ex, into_items-on f g cells ys on ey) last

  pub into_fields-on :
      {h k : Heap d} (f g : ℕ → Option (Value d)) (es : Entries) (fs : Fields d)
      → IsHeap h
      → Extends h k
      → ReadsOn f g
      → into_fields f h es ≡ some fs
      → into_fields g k es ≡ some fs
  unfolding into_fields
  into_fields-on f g [] fs w ext on e = e
  into_fields-on {h} f g ((j, s) ∷ es) fs w ext on e =
      let (a, ea, rest) = >>=-eq-some (h.slot s) _ e in
      let (x, ex, rest') = >>=-eq-some (f a) _ rest in
      let (ys, ey, last) = >>=-eq-some (into_fields f h es) _ rest' in
      rw (slot-Extends s w ext ea, on a x ex, into_fields-on f g es ys w ext on ey) last

  into_inner-on :
      (f f' : List ℕ → Option (Items d)) (g g' : Entries → Option (Fields d)) (v : InnerValue d)
      {x : Value d}
      → ((cells : List ℕ) (xs : Items d) → f cells ≡ some xs → f' cells ≡ some xs)
      → ((es : Entries) (fs : Fields d) → g es ≡ some fs → g' es ≡ some fs)
      → into_inner f g v ≡ some x
      → into_inner f' g' v ≡ some x
  unfolding into_inner
  into_inner-on f f' g g' InnerValue.null p q e = e
  into_inner-on f f' g g' (InnerValue.bool b) p q e = e
  into_inner-on f f' g g' (InnerValue.number n) p q e = e
  into_inner-on f f' g g' (InnerValue.string s) p q e = e
  into_inner-on f f' g g' (InnerValue.array cells) p q e =
      let (xs, ex, last) = >>=-eq-some (f cells) _ e in rw (p cells xs ex) last
  into_inner-on f f' g g' (InnerValue.object m) p q e =
      let (fs, ef, last) = >>=-eq-some (g (d.entries m)) _ e in rw (q (d.entries m) fs ef) last

  pub into_at-Extends :
      (r : ℕ) {h k : Heap d} → IsHeap h → Extends h k → ReadsOn (into_at r h) (into_at r k)
  unfolding into_at
  into_at-Extends zero {h} w e a x got =
      let (v, ev, last) = >>=-eq-some (h.value a) _ got in rw (value-Extends a w e ev) last
  into_at-Extends (suc r) {h} {k} w e a x got =
      let (v, ev, last) = >>=-eq-some (h.value a) _ got in
      rw (value-Extends a w e ev) (
        into_inner-on _ _ _ _ v (λ cells xs. into_items-on _ _ cells xs (into_at-Extends r w e))
          (λ es fs. into_fields-on _ _ es fs w e (into_at-Extends r w e)) last)
