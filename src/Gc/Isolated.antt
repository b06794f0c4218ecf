-- ===== src/Gc/Isolated.antt =====
-- `deep_clone_with_recursion_limit` copies what its argument reads as, into cells of its own.
use grip.Common.{subst, ℕ, zero, suc, ◌≡◌, ◌≤◌, refl, ◌∙◌, Option, none, some, List, [], ◌∷◌, arith}
use grip.Common.Bytes.{Bytes}
use grip.Common.Opt.{>>=-eq-some}
use mathlib.Core.Option.{some-injective}
use grip.Deps.{Deps, Entries, find, Distinct}
use grip.Gc.Value.{Value, Items, Fields, nil, cons, end, field}
use grip.Gc.Heap.{
  InnerValue, Heap, alloc, alloc_slot, IsHeap, Extends, Extends-refl, Extends-trans, alloc-Extends,
  alloc_slot-Extends, alloc-IsHeap, alloc_slot-IsHeap,
}
use grip.Gc.Convert.{
  into_items, into_fields, into_inner, into_at, clone_items, clone_fields, clone_at,
}
use grip.Gc.RoundTrip.{
  truncate, truncate_items, truncate_fields, truncate_items-zero, truncate_fields-zero,
}
use grip.Gc.Clone.{
  Keeps, Keeps-inner, alloc-Keeps, alloc_slot-Keeps, into_items-on, into_fields-on, into_at-Extends,
}

module _ {d : Deps} where
  -- `h'` is `h` with a new cell `b` that stands for `x`, cut off below `t` levels when it is read
  -- `t` levels deep. That stays so whatever is later written to the cells of `h`.
  pub record Cloned (h : Heap d) (x : Value d) (b : ℕ) (h' : Heap d) : Type 0 where
    pub heap : IsHeap h'
    pub extends : Extends h h'
    pub fresh : h.next_value ≤ b
    pub reads : (t : ℕ) (k : Heap d) → Keeps h h' k → into_at t k b ≡ some (truncate t x)

  pub record ClonedItems (h : Heap d) (xs : Items d) (cells : List ℕ) (h' : Heap d) : Type 0 where
    pub heap : IsHeap h'
    pub extends : Extends h h'
    pub reads :
        (t : ℕ) (k : Heap d)
        → Keeps h h' k
        → into_items (into_at t k) cells ≡ some (truncate_items (suc t) xs)

  pub record ClonedFields (h : Heap d) (es : Entries) (fs : Fields d) (es' : Entries) (h' : Heap d)
      : Type 0 where
    pub heap : IsHeap h'
    pub extends : Extends h h'
    pub keys : (j : Bytes) → find j es ≡ none → find j es' ≡ none
    pub distinct : Distinct es → Distinct es'
    pub reads :
        (t : ℕ) (k : Heap d)
        → Keeps h h' k
        → into_fields (into_at t k) k es' ≡ some (truncate_fields (suc t) fs)

  -- What a fresh cell with the contents `v` reads as.
  at_zero :
      (k : Heap d) (b : ℕ) (v : InnerValue d)
      → k.value b ≡ some v
      → into_at 0 k b ≡ into_inner (λ _. some nil) (λ _. some end) v
  unfolding into_at
  at_zero k b v e = rw e

  at_suc :
      (t : ℕ) (k : Heap d) (b : ℕ) (v : InnerValue d)
      → k.value b ≡ some v
      → into_at (suc t) k b ≡ into_inner (into_items (into_at t k)) (into_fields (into_at t k) k) v
  unfolding into_at
  at_suc t k b v e = rw e

  -- The three shapes of a clone: a leaf, an array, an object.
  pub leaf-Cloned :
      (v : InnerValue d) (x : Value d) {h : Heap d}
      → IsHeap h
      → ((t : ℕ) (f : List ℕ → Option (Items d)) (g : Entries → Option (Fields d))
          → into_inner f g v ≡ some (truncate t x))
      → Cloned h x (alloc v h).0 (alloc v h).1
  unfolding alloc
  leaf-Cloned v x {h} w i = record {
    heap = alloc-IsHeap v w;
    extends = alloc-Extends v h;
    fresh = omega arith;
    reads = λ t k s. read t k (alloc-Keeps v h (Extends-refl h) s);
  }
    where
      read :
          (t : ℕ) (k : Heap _)
          → k.value h.next_value ≡ some v
          → into_at t k h.next_value ≡ some (truncate t x)
      read zero k e = at_zero k h.next_value v e ∙ i 0 _ _
      read (suc t) k e = at_suc t k h.next_value v e ∙ i (suc t) _ _

  pub array-Cloned :
      {h h' : Heap d} {xs : Items d} {cells : List ℕ}
      → ClonedItems h xs cells h'
      → Cloned h
          (Value.array xs)
          (alloc (InnerValue.array cells) h').0
          (alloc (InnerValue.array cells) h').1
  unfolding alloc truncate into_inner
  array-Cloned {h} {h'} {xs} {cells} c = record {
    heap = alloc-IsHeap _ c.heap;
    extends = Extends-trans c.extends (alloc-Extends _ h');
    fresh = c.extends.next_value;
    reads = λ t k s. read t k s (alloc-Keeps _ h' c.extends s);
  }
    where
      read :
          (t : ℕ) (k : Heap _)
          → Keeps h (alloc (InnerValue.array cells) h').1 k
          → k.value h'.next_value ≡ some (InnerValue.array cells)
          → into_at t k h'.next_value ≡ some (truncate t (Value.array xs))
      read zero k s e = at_zero k h'.next_value _ e ∙ rw (truncate_items-zero xs)
      read (suc t) k s e =
          at_suc t k h'.next_value _ e
          ∙ rw (c.reads t k (Keeps-inner (Extends-refl h) (alloc-Extends _ h') s))

  pub object-Cloned :
      {h h' : Heap d} {fs : Fields d} (es es' : Entries)
      → Distinct es
      → ClonedFields h es fs es' h'
      → Cloned h
          (Value.object fs)
          (alloc (InnerValue.object (d.collect es')) h').0
          (alloc (InnerValue.object (d.collect es')) h').1
  unfolding alloc truncate into_inner
  object-Cloned {h} {h'} {fs} es es' distinct c = record {
    heap = alloc-IsHeap _ c.heap;
    extends = Extends-trans c.extends (alloc-Extends _ h');
    fresh = c.extends.next_value;
    reads = λ t k s. read t k s (alloc-Keeps _ h' c.extends s);
  }
    where
      read :
          (t : ℕ) (k : Heap _)
          → Keeps h (alloc (InnerValue.object (d.collect es')) h').1 k
          → k.value h'.next_value ≡ some (InnerValue.object (d.collect es'))
          → into_at t k h'.next_value ≡ some (truncate t (Value.object fs))
      read zero k s e = at_zero k h'.next_value _ e ∙ rw (truncate_fields-zero fs)
      read (suc t) k s e =
          at_suc t k h'.next_value _ e
          ∙ rw (
            d.entries-collect es' (c.distinct distinct),
            c.reads t k (Keeps-inner (Extends-refl h) (alloc-Extends _ h') s),
          )

module _ {d : Deps} where
  items-step :
      {h h₁ h₂ : Heap d} (x : Value d) (xs : Items d) (b : ℕ) (cells : List ℕ)
      → Cloned h x b h₁
      → ClonedItems h₁ xs cells h₂
      → ClonedItems h (cons x xs) (b ∷ cells) h₂
  unfolding into_items truncate_items
  items-step {h} {h₂} x xs b cells c cs = record {
    heap = cs.heap;
    extends = Extends-trans c.extends cs.extends;
    reads = λ t k s. rw (
      c.reads t k (Keeps-inner (Extends-refl h) cs.extends s),
      cs.reads t k (Keeps-inner c.extends (Extends-refl h₂) s),
    );
  }

  clone_items-cons :
      (clone : ℕ → Heap d → Option (ℕ × Heap d)) (a : ℕ) (cells : List ℕ) (h h₁ h₂ : Heap d) (b : ℕ)
      (cells' : List ℕ)
      → clone a h ≡ some (b, h₁)
      → clone_items clone cells h₁ ≡ some (cells', h₂)
      → clone_items clone (a ∷ cells) h ≡ some (b ∷ cells', h₂)
  unfolding clone_items
  clone_items-cons clone a cells h h₁ h₂ b cells' p q = rw (p, q)

  fields-step :
      {h h₁ h₂ : Heap d} (j : Bytes) (s : ℕ) (x : Value d) (fs : Fields d) (b : ℕ)
      (es es' : Entries)
      → Cloned h x b h₁
      → ClonedFields (alloc_slot b h₁).1 es fs es' h₂
      → ClonedFields h ((j, s) ∷ es) (field j x fs) ((j, (alloc_slot b h₁).0) ∷ es') h₂
  unfolding into_fields truncate_fields find
  fields-step {h} {h₁} {h₂} j s x fs b es es' c cs = record {
    heap = cs.heap;
    extends = Extends-trans grown cs.extends;
    keys = λ i m. ground (arith, cs.keys i);
    distinct = λ m. (cs.keys j m.0, cs.distinct m.1);
    reads = λ t k v. rw (
      alloc_slot-Keeps b h₁ c.extends (Keeps-inner (Extends-refl h) cs.extends v),
      c.reads t k
          (Keeps-inner (Extends-refl h) (Extends-trans (alloc_slot-Extends b h₁) cs.extends) v),
      cs.reads t k (Keeps-inner grown (Extends-refl h₂) v),
    );
  }
    where
      grown : Extends h (alloc_slot b h₁).1
      grown = Extends-trans c.extends (alloc_slot-Extends b h₁)

  clone_fields-cons :
      (clone : ℕ → Heap d → Option (ℕ × Heap d)) (j : Bytes) (s a : ℕ) (es : Entries)
      (h h₁ h₂ : Heap d) (b : ℕ) (es' : Entries)
      → h.slot s ≡ some a
      → clone a h ≡ some (b, h₁)
      → clone_fields clone es (alloc_slot b h₁).1 ≡ some (es', h₂)
      → clone_fields clone ((j, s) ∷ es) h ≡ some ((j, (alloc_slot b h₁).0) ∷ es', h₂)
  unfolding clone_fields
  clone_fields-cons clone j s a es h h₁ h₂ b es' p q r = rw (p, q, r)

-- What the induction on the levels says of `clone_at r`.
abbrev pub CloneOk : Deps → ℕ → Type 0
CloneOk d r =
    (a : ℕ) (h : Heap d) (x : Value d)
    → IsHeap h
    → into_at r h a ≡ some x
    → (b : ℕ) × (h' : Heap d) × (clone_at r a h ≡ some (b, h')) × Cloned h x b h'

module _ {d : Deps} where
  pub items-Cloned :
      (r : ℕ) (cells : List ℕ) {h : Heap d} (xs : Items d)
      → CloneOk d r
      → IsHeap h
      → into_items (into_at r h) cells ≡ some xs
      → (cells' : List ℕ) × (h' : Heap d) × (clone_items (clone_at r) cells h ≡ some (cells', h'))
        × ClonedItems h xs cells' h'
  unfolding into_items clone_items truncate_items
  items-Cloned r [] {h} nil ok w e =
      ([], h, refl, record { heap = w; extends = Extends-refl h; reads = λ t k s. refl })
  items-Cloned r [] (cons x xs) ok w e = cc
  items-Cloned r (a ∷ cells) {h} xs ok w e =
      let (x, ex, rest) = >>=-eq-some (into_at r h a) _ e in
      let (ys, ey, last) = >>=-eq-some (into_items (into_at r h) cells) _ rest in
      let (b, h₁, eb, c) = ok a h x w ex in
      let (cells', h₂, es, cs) =
        items-Cloned r cells ys ok c.heap
          (into_items-on _ _ cells ys (into_at-Extends r w c.extends) ey) in
      (
        b ∷ cells',
        h₂,
        clone_items-cons (clone_at r) a cells h h₁ h₂ b cells' eb es,
        subst (λ z. ClonedItems h z (b ∷ cells') h₂) (some-injective _ _ last)
            (items-step x ys b cells' c cs),
      )

  pub fields-Cloned :
      (r : ℕ) (es : Entries) {h : Heap d} (fs : Fields d)
      → CloneOk d r
      → IsHeap h
      → into_fields (into_at r h) h es ≡ some fs
      → (es' : Entries) × (h' : Heap d) × (clone_fields (clone_at r) es h ≡ some (es', h'))
        × ClonedFields h es fs es' h'
  unfolding into_fields clone_fields truncate_fields find
  fields-Cloned r [] {h} end ok w e = (
    [],
    h,
    refl,
    record {
      heap = w;
      extends = Extends-refl h;
      keys = λ j m. refl;
      distinct = λ m. tt;
      reads = λ t k s. refl;
    },
  )
  fields-Cloned r [] (field j x fs) ok w e = cc
  fields-Cloned r ((j, s) ∷ es) {h} fs ok w e =
      let (a, ea, rest) = >>=-eq-some (h.slot s) _ e in
      let (x, ex, rest') = >>=-eq-some (into_at r h a) _ rest in
      let (ys, ey, last) = >>=-eq-some (into_fields (into_at r h) h es) _ rest' in
      let (b, h₁, eb, c) = ok a h x w ex in
      let grown = Extends-trans c.extends (alloc_slot-Extends b h₁) in
      let (es', h₂, ef, cs) =
        fields-Cloned r es ys ok (alloc_slot-IsHeap b c.heap)
          (into_fields-on _ _ es ys w grown (into_at-Extends r w grown) ey) in
      (
        (j, (alloc_slot b h₁).0) ∷ es',
        h₂,
        clone_fields-cons (clone_at r) j s a es h h₁ h₂ b es' ea eb ef,
        subst (λ z. ClonedFields h ((j, s) ∷ es) z ((j, (alloc_slot b h₁).0) ∷ es') h₂)
            (some-injective _ _ last) (fields-step j s x ys b es es' c cs),
      )
