-- ===== src/Gc/Total.antt =====
-- The conversions never read a cell that was not made, and leave a closed heap closed.
use grip.Common.{ℕ, zero, suc, ◌<◌, ◌≡◌, refl, Option, some, List, [], ◌∷◌, arith, All, All-map}
use grip.Common.Bytes.{Bytes}
use grip.Deps.{Deps, Entries}
use grip.Gc.Value.{Value, Items, Fields, nil, cons, end, field}
use grip.Gc.Heap.{InnerValue, Heap, alloc, alloc_slot}
use grip.Gc.Convert.{
  from_value, from_items, from_fields, levels_below, into_items, into_fields, into_inner, into_at,
  into_with_recursion_limit, clone_items, clone_fields, clone_inner, clone_at,
  deep_clone_with_recursion_limit,
}
use grip.Gc.Closed.{
  Refers, Closed, Grown, Grown-refl, Grown-trans, alloc-Grown, alloc_slot-Grown, alloc-Closed,
  alloc_slot-Closed,
}

abbrev Slots : ℕ → Entries → Type 0
Slots n = All (λ (p : Bytes × ℕ). p.1 < n)

module _ {d : Deps} where
  -- A new cell `a` in a heap that has grown from `h`.
  pub record Made (h : Heap d) (a : ℕ) (h' : Heap d) : Type 0 where
    pub closed : Closed h'
    pub grown : Grown h h'
    pub below : a < h'.next_value

  record MadeItems (h : Heap d) (cells : List ℕ) (h' : Heap d) : Type 0 where
    closed : Closed h'
    grown : Grown h h'
    below : All (λ a. a < h'.next_value) cells

  record MadeFields (h : Heap d) (es : Entries) (h' : Heap d) : Type 0 where
    closed : Closed h'
    grown : Grown h h'
    below : Slots h'.next_slot es

  pub alloc-Made :
      (v : InnerValue d) (h k : Heap d)
      → Grown h k
      → Closed k
      → Refers k v
      → Made h (alloc v k).0 (alloc v k).1
  unfolding alloc
  alloc-Made v h k g c r = record {
    closed = alloc-Closed v k c r;
    grown = Grown-trans g (alloc-Grown v k);
    below = omega arith;
  }

  -- One more element before those made after it.
  MadeItems-cons :
      (h k l : Heap d) (a : ℕ) (cells : List ℕ)
      → Made h a k
      → MadeItems k cells l
      → MadeItems h (a ∷ cells) l
  MadeItems-cons h k l a cells p q = record {
    closed = q.closed;
    grown = Grown-trans p.grown q.grown;
    below = (omega (arith, p.below, q.grown.value), q.below);
  }

  MadeFields-cons :
      (h k l : Heap d) (j : Bytes) (a : ℕ) (es : Entries)
      → Made h a k
      → MadeFields (alloc_slot a k).1 es l
      → MadeFields h ((j, (alloc_slot a k).0) ∷ es) l
  unfolding alloc_slot
  MadeFields-cons h k l j a es p q = record {
    closed = q.closed;
    grown = Grown-trans p.grown (Grown-trans (alloc_slot-Grown a k) q.grown);
    below = (omega (arith, q.grown.slot), q.below);
  }

mutual
  unfolding from_value

  value-Made :
      {d : Deps} (x : Value d) (h : Heap d)
      → Closed h
      → Made h (from_value x h).0 (from_value x h).1
  value-Made Value.null h c = alloc-Made InnerValue.null h h (Grown-refl h) c tt
  value-Made (Value.bool b) h c = alloc-Made (InnerValue.bool b) h h (Grown-refl h) c tt
  value-Made (Value.number n) h c = alloc-Made (InnerValue.number n) h h (Grown-refl h) c tt
  value-Made (Value.string s) h c = alloc-Made (InnerValue.string s) h h (Grown-refl h) c tt
  value-Made (Value.array xs) h c =
      let m = items-Made xs h c in
      alloc-Made (InnerValue.array (from_items xs h).0) h (from_items xs h).1 m.grown m.closed
        m.below
  value-Made {d} (Value.object fs) h c =
      let m = fields-Made fs h c in
      alloc-Made (InnerValue.object (d.collect (from_fields fs h).0)) h (from_fields fs h).1 m.grown
        m.closed (d.collect-All _ (from_fields fs h).0 m.below)

  items-Made :
      {d : Deps} (xs : Items d) (h : Heap d)
      → Closed h
      → MadeItems h (from_items xs h).0 (from_items xs h).1
  items-Made nil h c = record { closed = c; grown = Grown-refl h; below = tt }
  items-Made (cons x xs) h c =
      let m = value-Made x h c in
      MadeItems-cons h _ _ _ _ m (items-Made xs (from_value x h).1 m.closed)

  fields-Made :
      {d : Deps} (fs : Fields d) (h : Heap d)
      → Closed h
      → MadeFields h (from_fields fs h).0 (from_fields fs h).1
  fields-Made end h c = record { closed = c; grown = Grown-refl h; below = tt }
  fields-Made (field k x fs) h c =
      let m = value-Made x h c in
      let (a, h') = from_value x h in
      MadeFields-cons h h' _ k a _ m
        (fields-Made fs (alloc_slot a h').1 (alloc_slot-Closed a h' m.closed m.below))

pub from_value-Made :
    {d : Deps} (x : Value d) (h : Heap d) → Closed h → Made h (from_value x h).0 (from_value x h).1
from_value-Made x h c = value-Made x h c

module _ {d : Deps} (h : Heap d) (c : Closed h) where
  into_items-total :
      (into : ℕ → Option (Value d))
      → ((a : ℕ) → a < h.next_value → (x : Value d) × (into a ≡ some x))
      → (cells : List ℕ) → All (λ a. a < h.next_value) cells
      → (xs : Items d) × (into_items into cells ≡ some xs)
  unfolding into_items
  into_items-total into one [] l = (nil, refl)
  into_items-total into one (a ∷ cells) l =
      let (x, e) = one a l.0 in
      let (xs, es) = into_items-total into one cells l.1 in (cons x xs, rw e (rw es refl))

  into_fields-total :
      (into : ℕ → Option (Value d))
      → ((a : ℕ) → a < h.next_value → (x : Value d) × (into a ≡ some x))
      → (es : Entries) → Slots h.next_slot es
      → (fs : Fields d) × (into_fields into h es ≡ some fs)
  unfolding into_fields
  into_fields-total into one [] l = (end, refl)
  into_fields-total into one ((k, s) ∷ es) l =
      let (a, ea, below) = c.slot s l.0 in
      let (x, e) = one a below in
      let (fs, ef) = into_fields-total into one es l.1 in (field k x fs, rw ea (rw e (rw ef refl)))

  into_inner-total :
      (items : List ℕ → Option (Items d)) (fields : Entries → Option (Fields d)) (v : InnerValue d)
      → ((cells : List ℕ)
          → All (λ a. a < h.next_value) cells
          → (xs : Items d) × (items cells ≡ some xs))
      → ((es : Entries) → Slots h.next_slot es → (fs : Fields d) × (fields es ≡ some fs))
      → Refers h v
      → (x : Value d) × (into_inner items fields v ≡ some x)
  unfolding into_inner
  into_inner-total items fields InnerValue.null i f r = (_, refl)
  into_inner-total items fields (InnerValue.bool b) i f r = (_, refl)
  into_inner-total items fields (InnerValue.number n) i f r = (_, refl)
  into_inner-total items fields (InnerValue.string s) i f r = (_, refl)
  into_inner-total items fields (InnerValue.array cells) i f r =
      let (xs, e) = i cells r in (Value.array xs, rw e refl)
  into_inner-total items fields (InnerValue.object m) i f r =
      let (fs, e) = f (d.entries m) r in (Value.object fs, rw e refl)

  into_at-total : (r a : ℕ) → a < h.next_value → (x : Value d) × (into_at r h a ≡ some x)
  unfolding into_at
  into_at-total zero a l =
      let (v, ev, refers) = c.value a l in
      let (x, e) =
        into_inner-total (λ _. some nil) (λ _. some end) v (λ cells l. (nil, refl))
          (λ es l. (end, refl)) refers in
      (x, rw ev e)
  into_at-total (suc r) a l =
      let (v, ev, refers) = c.value a l in
      let one = into_at-total r in
      let (x, e) =
        into_inner-total (into_items (into_at r h)) (into_fields (into_at r h) h) v
          (into_items-total (into_at r h) one) (into_fields-total (into_at r h) one) refers in
      (x, rw ev e)

  -- `into_with_recursion_limit` answers at every cell of a closed heap, whatever the limit.
  pub into-total :
      (a limit : ℕ)
      → a < h.next_value
      → (x : Value d) × (into_with_recursion_limit h a limit ≡ some x)
  unfolding into_with_recursion_limit
  into-total a limit l = into_at-total (levels_below d limit) a l

module _ {d : Deps} where
  -- A copy of one cell succeeds in every closed heap that has the cell.
  abbrev Copies : (ℕ → Heap d → Option (ℕ × Heap d)) → Type 0
  Copies clone =
      (a : ℕ) (h : Heap d)
      → Closed h
      → a < h.next_value
      → (b : ℕ) × (h' : Heap d) × (clone a h ≡ some (b, h')) × Made h b h'

  clone_items-total :
      (clone : ℕ → Heap d → Option (ℕ × Heap d))
      → Copies clone
      → (cells : List ℕ) (h : Heap d) → Closed h
      → All (λ a. a < h.next_value) cells
      → (cells' : List ℕ) × (h' : Heap d) × (clone_items clone cells h ≡ some (cells', h'))
        × MadeItems h cells' h'
  unfolding clone_items
  clone_items-total clone one [] h c l =
      ([], h, refl, record { closed = c; grown = Grown-refl h; below = tt })
  clone_items-total clone one (a ∷ cells) h c l =
      let (b, h₁, e, m) = one a h c l.0 in
      let (cells', h₂, es, ms) =
        clone_items-total clone one cells h₁ m.closed
          (All-map cells (λ x p. omega (arith, m.grown.value)) l.1) in
      (b ∷ cells', h₂, rw e (rw es refl), MadeItems-cons h h₁ h₂ b cells' m ms)

  clone_fields-total :
      (clone : ℕ → Heap d → Option (ℕ × Heap d))
      → Copies clone
      → (es : Entries) (h : Heap d) → Closed h
      → Slots h.next_slot es
      → (es' : Entries) × (h' : Heap d) × (clone_fields clone es h ≡ some (es', h'))
        × MadeFields h es' h'
  unfolding clone_fields
  clone_fields-total clone one [] h c l =
      ([], h, refl, record { closed = c; grown = Grown-refl h; below = tt })
  clone_fields-total clone one ((k, s) ∷ es) h c l =
      let (a, ea, below) = c.slot s l.0 in
      let (b, h₁, e, m) = one a h c below in
      let (es', h₂, ees, ms) =
        clone_fields-total clone one es (alloc_slot b h₁).1
          (alloc_slot-Closed b h₁ m.closed m.below)
          (All-map es (λ x p. omega (arith, m.grown.slot, (alloc_slot-Grown b h₁).slot)) l.1) in
      (
        (k, (alloc_slot b h₁).0) ∷ es',
        h₂,
        rw ea (rw e (rw ees refl)),
        MadeFields-cons h h₁ h₂ k b es' m ms,
      )

  clone_inner-total :
      (items : List ℕ → Heap d → Option (List ℕ × Heap d))
      (fields : Entries → Heap d → Option (Entries × Heap d)) (v : InnerValue d) (h : Heap d)
      → Closed h
      → ((cells : List ℕ)
          → All (λ a. a < h.next_value) cells
          → (cells' : List ℕ) × (h' : Heap d) × (items cells h ≡ some (cells', h'))
            × MadeItems h cells' h')
      → ((es : Entries)
          → Slots h.next_slot es
          → (es' : Entries) × (h' : Heap d) × (fields es h ≡ some (es', h')) × MadeFields h es' h')
      → Refers h v
      → (b : ℕ) × (h' : Heap d) × (clone_inner items fields v h ≡ some (b, h')) × Made h b h'
  unfolding clone_inner
  clone_inner-total items fields (InnerValue.array cells) h c i f r =
      let (cells', h', e, m) = i cells r in
      (_, _, rw e refl, alloc-Made (InnerValue.array cells') h h' m.grown m.closed m.below)
  clone_inner-total items fields (InnerValue.object o) h c i f r =
      let (es', h', e, m) = f (d.entries o) r in
      (
        _,
        _,
        rw e refl,
        alloc-Made (InnerValue.object (d.collect es')) h h' m.grown m.closed
            (d.collect-All _ es' m.below),
      )
  clone_inner-total items fields InnerValue.null h c i f r =
      (_, _, refl, alloc-Made InnerValue.null h h (Grown-refl h) c tt)
  clone_inner-total items fields (InnerValue.bool b) h c i f r =
      (_, _, refl, alloc-Made (InnerValue.bool b) h h (Grown-refl h) c tt)
  clone_inner-total items fields (InnerValue.number n) h c i f r =
      (_, _, refl, alloc-Made (InnerValue.number n) h h (Grown-refl h) c tt)
  clone_inner-total items fields (InnerValue.string s) h c i f r =
      (_, _, refl, alloc-Made (InnerValue.string s) h h (Grown-refl h) c tt)

  clone_at-total : (r : ℕ) → Copies (clone_at r)
  unfolding clone_at
  clone_at-total zero a h c l =
      let (v, ev, refers) = c.value a l in
      let (b, h', e, m) =
        clone_inner-total (λ _ k. some ([], k)) (λ _ k. some ([], k)) v h c
          (λ cells p. ([], h, refl, record { closed = c; grown = Grown-refl h; below = tt }))
          (λ es p. ([], h, refl, record { closed = c; grown = Grown-refl h; below = tt })) refers in
      (b, h', rw ev e, m)
  clone_at-total (suc r) a h c l =
      let (v, ev, refers) = c.value a l in
      let one = clone_at-total r in
      let (b, h', e, m) =
        clone_inner-total (clone_items (clone_at r)) (clone_fields (clone_at r)) v h c
          (λ cells. clone_items-total (clone_at r) one cells h c)
          (λ es. clone_fields-total (clone_at r) one es h c) refers in
      (b, h', rw ev e, m)

  -- `deep_clone_with_recursion_limit` succeeds at every cell of a closed heap, whatever the limit,
  -- and leaves a closed heap that has grown.
  pub deep_clone-total :
      (a limit : ℕ) (h : Heap d)
      → Closed h
      → a < h.next_value
      → (b : ℕ) × (h' : Heap d) × (deep_clone_with_recursion_limit a limit h ≡ some (b, h'))
        × Made h b h'
  unfolding deep_clone_with_recursion_limit
  deep_clone-total a limit h c l = clone_at-total (levels_below d limit) a h c l
