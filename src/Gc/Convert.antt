-- ===== src/Gc/Convert.antt =====
-- The conversions between the tree and the heap: `From<Value> for GCValue`,
-- `into_with_recursion_limit` and `deep_clone_with_recursion_limit`.
use grip.Common.{ℕ, zero, suc, ◌+◌, ◌*◌, Option, some, List, [], ◌∷◌}
use grip.Common.Int.{usize_pred}
use grip.Common.Opt.{◌>>=◌}
use grip.Deps.{Deps, Entries}
use grip.Gc.Value.{Value, Items, Fields, nil, cons, end, field}
use grip.Gc.Heap.{InnerValue, Heap, alloc, alloc_slot}

-- `From<Value> for GCValue`, with the loops over an array's items and an object's members.
unfoldable mutual
  pub from_value : {d : Deps} → Value d → Heap d → ℕ × Heap d
  from_value Value.null h = alloc InnerValue.null h
  from_value (Value.bool b) h = alloc (InnerValue.bool b) h
  from_value (Value.number n) h = alloc (InnerValue.number n) h
  from_value (Value.string s) h = alloc (InnerValue.string s) h
  from_value (Value.array xs) h =
      let (cells, h') = from_items xs h in alloc (InnerValue.array cells) h'
  from_value {d} (Value.object fs) h =
      let (es, h') = from_fields fs h in alloc (InnerValue.object (d.collect es)) h'

  pub from_items : {d : Deps} → Items d → Heap d → List ℕ × Heap d
  from_items nil h = ([], h)
  from_items (cons x xs) h =
      let (a, h') = from_value x h in let (cells, h'') = from_items xs h' in (a ∷ cells, h'')

  pub from_fields : {d : Deps} → Fields d → Heap d → Entries × Heap d
  from_fields end h = ([], h)
  from_fields (field k x fs) h =
      let (a, h') = from_value x h in
      let (s, h'') = alloc_slot a h' in let (es, last) = from_fields fs h'' in ((k, s) ∷ es, last)

-- `recursion_limit - 1` on a `usize`, which wraps at 0.
abbrev pub levels_below : Deps → ℕ → ℕ
levels_below d limit = usize_pred (2 * d.isize_max + 1) limit

module _ {d : Deps} where
  -- The loops of `into_with_recursion_limit`, over a conversion of one child.
  unfoldable pub into_items : (ℕ → Option (Value d)) → List ℕ → Option (Items d)
  into_items into [] = some nil
  into_items into (a ∷ cells) = do x ← into a; xs ← into_items into cells; some (cons x xs)

  unfoldable pub into_fields : (ℕ → Option (Value d)) → Heap d → Entries → Option (Fields d)
  into_fields into h [] = some end
  into_fields into h ((k, s) ∷ es) = do
    a ← h.slot s
    x ← into a
    fs ← into_fields into h es
    some (field k x fs)

  -- `InnerValue::into_with_recursion_limit`, over the conversions of an array's and an object's
  -- children.
  unfoldable pub into_inner :
      (List ℕ → Option (Items d)) → (Entries → Option (Fields d)) → InnerValue d → Option (Value d)
  into_inner items fields InnerValue.null = some Value.null
  into_inner items fields (InnerValue.bool b) = some (Value.bool b)
  into_inner items fields (InnerValue.number n) = some (Value.number n)
  into_inner items fields (InnerValue.string s) = some (Value.string s)
  into_inner items fields (InnerValue.array cells) = do xs ← items cells; some (Value.array xs)
  into_inner items fields (InnerValue.object m) = do
    fs ← fields (d.entries m)
    some (Value.object fs)

  -- The value at an address, with `recursion_limit - 1` levels left. At 0 the `filter` drops every
  -- child.
  unfoldable pub into_at : ℕ → Heap d → ℕ → Option (Value d)
  unfolding into_inner into_items into_fields
  into_at zero h a = h.value a >>= into_inner (λ _. some nil) (λ _. some end)
  into_at (suc r) h a =
      h.value a >>= into_inner (into_items (into_at r h)) (into_fields (into_at r h) h)

  -- `GCValue::into_with_recursion_limit`.
  unfoldable pub into_with_recursion_limit : Heap d → ℕ → ℕ → Option (Value d)
  unfolding into_at
  into_with_recursion_limit h a limit = into_at (levels_below d limit) h a

  -- The loops of `deep_clone_with_recursion_limit`.
  unfoldable pub clone_items :
      (ℕ → Heap d → Option (ℕ × Heap d)) → List ℕ → Heap d → Option (List ℕ × Heap d)
  clone_items clone [] h = some ([], h)
  clone_items clone (a ∷ cells) h = do
    (b, h') ← clone a h
    (cells', h'') ← clone_items clone cells h'
    some (b ∷ cells', h'')

  unfoldable pub clone_fields :
      (ℕ → Heap d → Option (ℕ × Heap d)) → Entries → Heap d → Option (Entries × Heap d)
  clone_fields clone [] h = some ([], h)
  clone_fields clone ((k, s) ∷ es) h = do
    a ← h.slot s
    (b, h') ← clone a h
    let (t, h'') = alloc_slot b h'
    (es', last) ← clone_fields clone es h''
    some ((k, t) ∷ es', last)

  unfoldable pub clone_inner :
      (List ℕ → Heap d → Option (List ℕ × Heap d))
      → (Entries → Heap d → Option (Entries × Heap d))
      → InnerValue d
      → Heap d
      → Option (ℕ × Heap d)
  clone_inner items fields (InnerValue.array cells) h = do
    (cells', h') ← items cells h
    some (alloc (InnerValue.array cells') h')
  clone_inner items fields (InnerValue.object m) h = do
    (es, h') ← fields (d.entries m) h
    some (alloc (InnerValue.object (d.collect es)) h')
  clone_inner items fields InnerValue.null h = some (alloc InnerValue.null h)
  clone_inner items fields (InnerValue.bool b) h = some (alloc (InnerValue.bool b) h)
  clone_inner items fields (InnerValue.number n) h = some (alloc (InnerValue.number n) h)
  clone_inner items fields (InnerValue.string s) h = some (alloc (InnerValue.string s) h)

  unfoldable pub clone_at : ℕ → ℕ → Heap d → Option (ℕ × Heap d)
  unfolding clone_inner clone_items clone_fields
  clone_at zero a h = do v ← h.value a; clone_inner (λ _ k. some ([], k)) (λ _ k. some ([], k)) v h
  clone_at (suc r) a h = do
    v ← h.value a
    clone_inner (clone_items (clone_at r)) (clone_fields (clone_at r)) v h

  -- `GCValue::deep_clone_with_recursion_limit`.
  unfoldable pub deep_clone_with_recursion_limit : ℕ → ℕ → Heap d → Option (ℕ × Heap d)
  unfolding clone_at
  deep_clone_with_recursion_limit a limit h = clone_at (levels_below d limit) a h
