-- ===== src/Gc/DeepClone.antt =====
-- The induction over the levels of `deep_clone_with_recursion_limit`, and its theorem.
use grip.Common.{subst, ℕ, zero, suc, ◌≡◌, refl, Option, some, List, []}
use mathlib.Core.Option.{some-injective}
use grip.Common.Opt.{◌>>=◌, >>=-eq-some}
use grip.Deps.{Deps, Entries, find}
use grip.Gc.Value.{Value, Items, Fields, nil, end}
use grip.Gc.Heap.{InnerValue, Heap, alloc, IsHeap, Extends-refl}
use grip.Gc.Convert.{
  into_items, into_fields, into_inner, into_at, into_with_recursion_limit, levels_below,
  clone_items, clone_fields, clone_inner, clone_at, deep_clone_with_recursion_limit,
}
use grip.Gc.RoundTrip.{truncate, truncate_items, truncate_fields}
use grip.Gc.Isolated.{
  Cloned, ClonedItems, ClonedFields, CloneOk, leaf-Cloned, array-Cloned, object-Cloned,
  items-Cloned, fields-Cloned,
}

bind-eq :
    {A B : Type 0} (m : Option A) (f : A → Option B) {a : A} {b : Option B}
    → m ≡ some a
    → f a ≡ b
    → (m >>= f) ≡ b
bind-eq m f e q = rw e q

module _ {d : Deps} where
  -- A leaf's clone, when the leaf reads as `x`.
  leaf-case :
      (v : InnerValue d) (y x : Value d) {h : Heap d}
      → IsHeap h
      → ((t : ℕ) (f : List ℕ → Option (Items d)) (g : Entries → Option (Fields d))
          → into_inner f g v ≡ some (truncate t y))
      → y ≡ x
      → Cloned h x (alloc v h).0 (alloc v h).1
  leaf-case v y x {h} w i e =
      subst (λ z. Cloned h z (alloc v h).0 (alloc v h).1) e (leaf-Cloned v y w i)

  module _ {h : Heap d} (w : IsHeap h) (f : List ℕ → Option (Items d))
      (g : Entries → Option (Fields d)) (cf : List ℕ → Heap d → Option (List ℕ × Heap d))
      (cg : Entries → Heap d → Option (Entries × Heap d))
      (items : (cells : List ℕ) (xs : Items d)
        → f cells ≡ some xs
        → (cells' : List ℕ) × (h' : Heap d) × (cf cells h ≡ some (cells', h'))
          × ClonedItems h xs cells' h')
      (fields : (es : Entries) (fs : Fields d)
        → g es ≡ some fs
        → (es' : Entries) × (h' : Heap d) × (cg es h ≡ some (es', h'))
          × ClonedFields h es fs es' h') where
    inner-Cloned :
        (v : InnerValue d) (x : Value d)
        → into_inner f g v ≡ some x
        → (b : ℕ) × (h' : Heap d) × (clone_inner cf cg v h ≡ some (b, h')) × Cloned h x b h'
    unfolding into_inner clone_inner truncate
    inner-Cloned InnerValue.null x e = (
      _,
      _,
      refl,
      leaf-case InnerValue.null Value.null x w (λ t p q. refl) (some-injective _ _ e),
    )
    inner-Cloned (InnerValue.bool b) x e = (
      _,
      _,
      refl,
      leaf-case (InnerValue.bool b) (Value.bool b) x w (λ t p q. refl) (some-injective _ _ e),
    )
    inner-Cloned (InnerValue.number n) x e = (
      _,
      _,
      refl,
      leaf-case (InnerValue.number n) (Value.number n) x w (λ t p q. refl) (some-injective _ _ e),
    )
    inner-Cloned (InnerValue.string s) x e = (
      _,
      _,
      refl,
      leaf-case (InnerValue.string s) (Value.string s) x w (λ t p q. refl) (some-injective _ _ e),
    )
    inner-Cloned (InnerValue.array cells) x e =
        let (xs, ex, last) = >>=-eq-some (f cells) _ e in
        let (cells', h', ec, c) = items cells xs ex in
        (
          (alloc (InnerValue.array cells') h').0,
          (alloc (InnerValue.array cells') h').1,
          rw ec,
          subst
              (λ z.
                Cloned h z (alloc (InnerValue.array cells') h').0
                  (alloc (InnerValue.array cells') h').1)
              (some-injective _ _ last) (array-Cloned c),
        )
    inner-Cloned (InnerValue.object m) x e =
        let (fs, ef, last) = >>=-eq-some (g (d.entries m)) _ e in
        let (es', h', ec, c) = fields (d.entries m) fs ef in
        (
          (alloc (InnerValue.object (d.collect es')) h').0,
          (alloc (InnerValue.object (d.collect es')) h').1,
          rw ec,
          subst
              (λ z.
                Cloned h z (alloc (InnerValue.object (d.collect es')) h').0
                  (alloc (InnerValue.object (d.collect es')) h').1)
              (some-injective _ _ last) (object-Cloned (d.entries m) es' (d.entries-Distinct m) c),
        )

-- A conversion that gives an empty array or object has an empty one as its clone.
no_items :
    {d : Deps} {h : Heap d} (w : IsHeap h) (cells : List ℕ) (xs : Items d)
    → ◌≡◌ {A = Option (Items d)} (some nil) (some xs)
    → (cells' : List ℕ) × (h' : Heap d) × (◌≡◌ {A = Option (List ℕ × Heap d)}
        (some ([], h))
        (some (cells', h')))
      × ClonedItems h xs cells' h'
unfolding into_items truncate_items
no_items {h} w cells xs e = (
  [],
  h,
  refl,
  subst (λ z. ClonedItems h z [] h) (some-injective _ _ e)
      (record { heap = w; extends = Extends-refl h; reads = λ t k s. refl }),
)

no_fields :
    {d : Deps} {h : Heap d} (w : IsHeap h) (es : Entries) (fs : Fields d)
    → ◌≡◌ {A = Option (Fields d)} (some end) (some fs)
    → (es' : Entries) × (h' : Heap d) × (◌≡◌ {A = Option (Entries × Heap d)}
        (some ([], h))
        (some (es', h')))
      × ClonedFields h es fs es' h'
unfolding into_fields truncate_fields find
no_fields {h} w es fs e = (
  [],
  h,
  refl,
  subst (λ z. ClonedFields h es z [] h) (some-injective _ _ e)
      (record {
        heap = w;
        extends = Extends-refl h;
        keys = λ j m. refl;
        distinct = λ m. tt;
        reads = λ t k s. refl;
      }),
)

clone_at-Cloned : {d : Deps} (r : ℕ) → CloneOk d r
unfolding into_at clone_at
clone_at-Cloned zero a h x w e =
    let (v, ev, last) = >>=-eq-some (h.value a) _ e in
    let (b, h', eb, c) =
      inner-Cloned w _ _ (λ _ k. some ([], k)) (λ _ k. some ([], k)) (no_items w) (no_fields w) v x
        last in
    (b, h', bind-eq (h.value a) _ ev eb, c)
clone_at-Cloned (suc r) a h x w e =
    let (v, ev, last) = >>=-eq-some (h.value a) _ e in
    let (b, h', eb, c) =
      inner-Cloned w _ _ (clone_items (clone_at r)) (clone_fields (clone_at r))
        (λ cells xs. items-Cloned r cells xs (clone_at-Cloned r) w)
        (λ es fs. fields-Cloned r es fs (clone_at-Cloned r) w) v x last in
    (b, h', bind-eq (h.value a) _ ev eb, c)

-- If an address reads as a tree under a recursion limit, then a deep copy under that limit
-- succeeds. Its result is a new cell. The heap keeps all its old cells unchanged, and the new cell
-- reads as that tree at every depth, also after later writes to any of the old cells: copy and
-- original share nothing.
pub deep_clone-Cloned :
    {d : Deps} (a limit : ℕ) (h : Heap d) (x : Value d)
    → IsHeap h
    → into_with_recursion_limit h a limit ≡ some x
    → (b : ℕ) × (h' : Heap d) × (deep_clone_with_recursion_limit a limit h ≡ some (b, h'))
      × Cloned h x b h'
unfolding into_with_recursion_limit deep_clone_with_recursion_limit
deep_clone-Cloned {d} a limit h x w e = clone_at-Cloned (levels_below d limit) a h x w e
