-- ===== src/Gc/Closed.antt =====
-- Heaps in which every reference leads to a cell that has been made.
use grip.Common.{
  ℕ, ◌≤◌, ◌<◌, ◌≡◌, refl, sym, ◌∙◌, subst, false, some, [], ◌∷◌, arith, if◌then◌else◌, ◌==◌, All,
  All-map, Bool-cases, inl, inr,
}
use grip.Common.Bytes.{Bytes, bytes_eq}
use grip.Deps.{Deps, Entries, find, upsert}
use grip.Gc.Heap.{InnerValue, Heap, alloc, alloc_slot, write, write_slot}

module _ {d : Deps} where
  -- What a cell refers to lies below the next addresses.
  abbrev pub Refers : Heap d → InnerValue d → Type 0
  Refers h (InnerValue.array cells) = All (λ a. a < h.next_value) cells
  Refers h (InnerValue.object m) = All (λ (p : Bytes × ℕ). p.1 < h.next_slot) (d.entries m)
  Refers h InnerValue.null = Unit
  Refers h (InnerValue.bool b) = Unit
  Refers h (InnerValue.number n) = Unit
  Refers h (InnerValue.string s) = Unit

  pub record Closed (h : Heap d) : Type 0 where
    pub value : (a : ℕ) → a < h.next_value → (v : InnerValue d) × (h.value a ≡ some v) × Refers h v
    pub slot : (s : ℕ) → s < h.next_slot → (a : ℕ) × (h.slot s ≡ some a) × (a < h.next_value)

  pub record Grown (h k : Heap d) : Type 0 where
    pub value : h.next_value ≤ k.next_value
    pub slot : h.next_slot ≤ k.next_slot

  pub Grown-refl : (h : Heap d) → Grown h h
  Grown-refl h = record { value = omega arith; slot = omega arith }

  pub Grown-trans : {h k l : Heap d} → Grown h k → Grown k l → Grown h l
  Grown-trans p q = record {
    value = omega (arith, p.value, q.value);
    slot = omega (arith, p.slot, q.slot);
  }

  -- A heap with one cell changed, and perhaps more cells: the other cells are as they were.
  pub Refers-grown : (h k : Heap d) (v : InnerValue d) → Grown h k → Refers h v → Refers k v
  Refers-grown h k (InnerValue.array cells) g r = All-map cells (λ a l. omega (arith, g.value)) r
  Refers-grown h k (InnerValue.object m) g r =
      All-map (d.entries m) (λ p l. omega (arith, g.slot)) r
  Refers-grown h k InnerValue.null g r = tt
  Refers-grown h k (InnerValue.bool b) g r = tt
  Refers-grown h k (InnerValue.number n) g r = tt
  Refers-grown h k (InnerValue.string s) g r = tt

  pub alloc-Grown : (v : InnerValue d) (h : Heap d) → Grown h (alloc v h).1
  unfolding alloc
  alloc-Grown v h = record { value = omega arith; slot = omega arith }

  pub alloc_slot-Grown : (a : ℕ) (h : Heap d) → Grown h (alloc_slot a h).1
  unfolding alloc_slot
  alloc_slot-Grown a h = record { value = omega arith; slot = omega arith }

  -- A cell of `k`, which is `h` with the cell at `a` set to `v`.
  changed :
      (h k : Heap d) (a : ℕ) (v : InnerValue d)
      → Closed h
      → Grown h k
      → Refers k v
      → (b : ℕ) → ((a == b) ≡ false → b < h.next_value)
      → k.value b ≡ (if a == b then some v else h.value b)
      → (w : InnerValue d) × (k.value b ≡ some w) × Refers k w
  changed h k a v c g r b old e = elim (Bool-cases (a == b)) [
    | inl hit ↦ (v, e ∙ rw hit refl, r)
    | inr miss ↦
        let (w, ew, rw_) = c.value b (old miss) in (w, e ∙ rw miss ew, Refers-grown h k w g rw_)
  ]

  -- A slot of `k`, which is `h` with the slot `s` set to `a`.
  changed_slot :
      (h k : Heap d) (s a : ℕ)
      → Closed h
      → Grown h k
      → a < k.next_value
      → (t : ℕ) → ((s == t) ≡ false → t < h.next_slot)
      → k.slot t ≡ (if s == t then some a else h.slot t)
      → (b : ℕ) × (k.slot t ≡ some b) × (b < k.next_value)
  changed_slot h k s a c g l t old e = elim (Bool-cases (s == t)) [
    | inl hit ↦ (a, e ∙ rw hit refl, l)
    | inr miss ↦
        let (b, eb, below) = c.slot t (old miss) in (b, e ∙ rw miss eb, omega (arith, g.value))
  ]

  -- A cell or slot that is there in a grown heap.
  slot_kept :
      (h k : Heap d) (t : ℕ)
      → Closed h
      → Grown h k
      → t < h.next_slot
      → k.slot t ≡ h.slot t
      → (b : ℕ) × (k.slot t ≡ some b) × (b < k.next_value)
  slot_kept h k t c g l e = let (b, eb, below) = c.slot t l in (b, e ∙ eb, omega (arith, g.value))

  value_kept :
      (h k : Heap d) (b : ℕ)
      → Closed h
      → Grown h k
      → b < h.next_value
      → k.value b ≡ h.value b
      → (w : InnerValue d) × (k.value b ≡ some w) × Refers k w
  value_kept h k b c g l e = let (w, ew, r) = c.value b l in (w, e ∙ ew, Refers-grown h k w g r)

  pub alloc-Closed : (v : InnerValue d) (h : Heap d) → Closed h → Refers h v → Closed (alloc v h).1
  unfolding alloc
  alloc-Closed v h c r =
      let g = alloc-Grown v h in
      record {
        value = λ b l.
            changed h (alloc v h).1 h.next_value v c g (Refers-grown h _ v g r) b
              (λ miss. ground arith) refl;
        slot = λ t l. slot_kept h (alloc v h).1 t c g l refl;
      }

  pub alloc_slot-Closed :
      (a : ℕ) (h : Heap d) → Closed h → a < h.next_value → Closed (alloc_slot a h).1
  unfolding alloc_slot
  alloc_slot-Closed a h c below =
      let g = alloc_slot-Grown a h in
      record {
        value = λ b l. value_kept h (alloc_slot a h).1 b c g l refl;
        slot = λ t l.
            changed_slot h (alloc_slot a h).1 h.next_slot a c g below t (λ miss. ground arith) refl;
      }

  pub write-Closed :
      (a : ℕ) (v : InnerValue d) (h : Heap d) → Closed h → Refers h v → Closed (write a v h)
  unfolding write
  write-Closed a v h c r =
      let g : Grown h (write a v h) = record { value = omega arith; slot = omega arith } in
      record {
        value = λ b l. changed h (write a v h) a v c g (Refers-grown h _ v g r) b (λ miss. l) refl;
        slot = λ t l. slot_kept h (write a v h) t c g l refl;
      }

  pub write_slot-Closed :
      (s a : ℕ) (h : Heap d) → Closed h → a < h.next_value → Closed (write_slot s a h)
  unfolding write_slot
  write_slot-Closed s a h c below =
      let g : Grown h (write_slot s a h) = record { value = omega arith; slot = omega arith } in
      record {
        value = λ b l. value_kept h (write_slot s a h) b c g l refl;
        slot = λ t l. changed_slot h (write_slot s a h) s a c g below t (λ miss. l) refl;
      }

  pub write-Grown : (a : ℕ) (v : InnerValue d) (h : Heap d) → Grown h (write a v h)
  unfolding write
  write-Grown a v h = record { value = omega arith; slot = omega arith }

  pub write_slot-Grown : (s a : ℕ) (h : Heap d) → Grown h (write_slot s a h)
  unfolding write_slot
  write_slot-Grown s a h = record { value = omega arith; slot = omega arith }

find-All :
    (P : Bytes × ℕ → Type 0) (k : Bytes) (es : Entries) (s : ℕ)
    → All P es
    → find k es ≡ some s
    → (j : Bytes) × P (j, s)
unfolding find
find-All P k [] s h e = cc
find-All P k ((j, t) ∷ es) s h e = elim (Bool-cases (bytes_eq j k)) [
  | inl hit ↦ (j, subst (λ z. P (j, z)) (ground arith) h.0)
  | inr miss ↦ find-All P k es s h.1 (ground arith)
]

upsert-All :
    (P : Bytes × ℕ → Type 0) (k : Bytes) (s : ℕ) (es : Entries)
    → ((j : Bytes) → P (j, s))
    → All P es
    → All P (upsert k s es)
unfolding upsert
upsert-All P k s [] p h = (p k, tt)
upsert-All P k s ((j, t) ∷ es) p h = elim (Bool-cases (bytes_eq j k)) [
  | inl hit ↦ rw hit (p j, h.1)
  | inr miss ↦ rw miss (h.0, upsert-All P k s es p h.1)
]

module _ {d : Deps} where
  -- A member's slot lies below the next one, and a map with one more member refers to cells.
  pub get-below :
      (h : Heap d) (m : d.Map) (k : Bytes) (s : ℕ)
      → Refers h (InnerValue.object m)
      → d.get m k ≡ some s
      → s < h.next_slot
  get-below h m k s r e =
      (find-All (λ p. p.1 < h.next_slot) k (d.entries m) s r (sym (d.get-find m k) ∙ e)).1

  pub insert-Refers :
      (h : Heap d) (m : d.Map) (k : Bytes) (s : ℕ)
      → Refers h (InnerValue.object m)
      → s < h.next_slot
      → Refers h (InnerValue.object (d.insert m k s))
  insert-Refers h m k s r l =
      subst (All (λ (p : Bytes × ℕ). p.1 < h.next_slot)) (sym (d.entries-insert m k s))
        (upsert-All (λ p. p.1 < h.next_slot) k s (d.entries m) (λ j. l) r)
