-- ===== src/Gc/Heap.antt =====
-- The cells: `InnerValue`, the heap of both kinds of cell, and the making and writing of cells.
use grip.Common.{
  ℕ, ◌+◌, ◌≡◌, ◌<◌, ◌≤◌, Bool, Option, none, some, List, if◌then◌else◌, ◌==◌, arith, refl, ◌∙◌,
}
use grip.Common.Bytes.{Bytes}
use grip.Deps.{Deps}

pub data InnerValue (d : Deps) : Type 0 where
  null : InnerValue d
  bool : Bool → InnerValue d
  number : d.Number → InnerValue d
  string : Bytes → InnerValue d
  array : List ℕ → InnerValue d
  object : d.Map → InnerValue d

pub record Heap (d : Deps) : Type 0 where
  pub next_value : ℕ
  pub value : ℕ → Option (InnerValue d)
  pub next_slot : ℕ
  pub slot : ℕ → Option ℕ

abbrev pub update {ℓ} : {A : Type ℓ} → (ℕ → Option A) → ℕ → A → ℕ → Option A
update f p v q = if p == q then some v else f q

module _ {d : Deps} where
  -- `GCValue::new`
  unfoldable pub alloc : InnerValue d → Heap d → ℕ × Heap d
  alloc v h =
      let a = h.next_value in (a, record h { next_value = a + 1; value = update h.value a v })

  -- `Rc::new(RefCell::new(_))`
  unfoldable pub alloc_slot : ℕ → Heap d → ℕ × Heap d
  alloc_slot a h =
      let s = h.next_slot in (s, record h { next_slot = s + 1; slot = update h.slot s a })

  -- A write through `borrow_inner_ref_mut`, and one through a slot's `borrow_mut`.
  unfoldable pub write : ℕ → InnerValue d → Heap d → Heap d
  write a v h = record h { value = update h.value a v }

  unfoldable pub write_slot : ℕ → ℕ → Heap d → Heap d
  write_slot s a h = record h { slot = update h.slot s a }

  -- Only cells below the next address are in use.
  pub record IsHeap (h : Heap d) : Type 0 where
    pub values : (a : ℕ) → h.next_value ≤ a → h.value a ≡ none
    pub slots : (s : ℕ) → h.next_slot ≤ s → h.slot s ≡ none

  -- `k` has every cell of `h`, with the same contents.
  pub record Extends (h k : Heap d) : Type 0 where
    pub next_value : h.next_value ≤ k.next_value
    pub next_slot : h.next_slot ≤ k.next_slot
    pub value : (a : ℕ) → a < h.next_value → k.value a ≡ h.value a
    pub slot : (s : ℕ) → s < h.next_slot → k.slot s ≡ h.slot s

  pub Extends-refl : (h : Heap d) → Extends h h
  Extends-refl h = record {
    next_value = omega arith;
    next_slot = omega arith;
    value = λ a l. refl;
    slot = λ s l. refl;
  }

  pub Extends-trans : {h k l : Heap d} → Extends h k → Extends k l → Extends h l
  Extends-trans p q = record {
    next_value = omega arith;
    next_slot = omega arith;
    value = λ a l. q.value a (omega arith) ∙ p.value a l;
    slot = λ s l. q.slot s (omega arith) ∙ p.slot s l;
  }

  pub alloc-Extends : (v : InnerValue d) (h : Heap d) → Extends h (alloc v h).1
  unfolding alloc
  alloc-Extends v h = record {
    next_value = omega arith;
    next_slot = omega arith;
    value = λ a l. ground arith;
    slot = λ s l. refl;
  }

  pub alloc_slot-Extends : (a : ℕ) (h : Heap d) → Extends h (alloc_slot a h).1
  unfolding alloc_slot
  alloc_slot-Extends v h = record {
    next_value = omega arith;
    next_slot = omega arith;
    value = λ a l. refl;
    slot = λ s l. ground arith;
  }

  pub alloc-IsHeap : (v : InnerValue d) {h : Heap d} → IsHeap h → IsHeap (alloc v h).1
  unfolding alloc
  alloc-IsHeap v w = record {
    values = λ a l. ground (arith, w.values a);
    slots = λ s l. w.slots s l;
  }

  pub alloc_slot-IsHeap : (v : ℕ) {h : Heap d} → IsHeap h → IsHeap (alloc_slot v h).1
  unfolding alloc_slot
  alloc_slot-IsHeap v w = record {
    values = λ a l. w.values a l;
    slots = λ s l. ground (arith, w.slots s);
  }
