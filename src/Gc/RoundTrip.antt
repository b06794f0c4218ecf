-- ===== src/Gc/RoundTrip.antt =====
-- What `From<Value>` builds, read back by `into_with_recursion_limit`.
use Prim.Native.Nat.{max}
use grip.Common.{
  ℕ, zero, suc, ◌≡◌, ◌<◌, ◌≤◌, refl, ◌∙◌, ap, ap₂, Bool, false, ◌||◌, Option, none, some, List,
  arith,
}
use grip.Common.Bytes.{Bytes, bytes_eq}
use grip.Deps.{Deps, Entries, find, Distinct}
use grip.Gc.Value.{Value, Items, Fields, nil, cons, end, field}
use grip.Gc.Heap.{
  IsHeap, alloc-IsHeap, alloc_slot-IsHeap, InnerValue, Heap, alloc, alloc_slot, Extends,
  Extends-refl, Extends-trans, alloc-Extends, alloc_slot-Extends,
}
use grip.Gc.Convert.{
  from_value, from_items, from_fields, into_items, into_fields, into_inner, into_at,
  into_with_recursion_limit, levels_below,
}

-- A tree cut off below `r` levels: arrays and objects there are empty.
unfoldable mutual
  pub truncate : {d : Deps} → ℕ → Value d → Value d
  truncate r Value.null = Value.null
  truncate r (Value.bool b) = Value.bool b
  truncate r (Value.number n) = Value.number n
  truncate r (Value.string s) = Value.string s
  truncate r (Value.array xs) = Value.array (truncate_items r xs)
  truncate r (Value.object fs) = Value.object (truncate_fields r fs)

  pub truncate_items : {d : Deps} → ℕ → Items d → Items d
  truncate_items zero nil = nil
  truncate_items zero (cons x xs) = nil
  truncate_items (suc r) nil = nil
  truncate_items (suc r) (cons x xs) = cons (truncate r x) (truncate_items (suc r) xs)

  pub truncate_fields : {d : Deps} → ℕ → Fields d → Fields d
  truncate_fields zero end = end
  truncate_fields zero (field k x fs) = end
  truncate_fields (suc r) end = end
  truncate_fields (suc r) (field k x fs) = field k (truncate r x) (truncate_fields (suc r) fs)

abbrev pub has_key : {d : Deps} → Bytes → Fields d → Bool
has_key k end = false
has_key k (field j x fs) = bytes_eq j k || has_key k fs

-- No object of the tree has two members of one name, as in every `serde_json::Value`.
unfoldable mutual
  pub WellKeyed : {d : Deps} → Value d → Type 0
  WellKeyed Value.null = Unit
  WellKeyed (Value.bool b) = Unit
  WellKeyed (Value.number n) = Unit
  WellKeyed (Value.string s) = Unit
  WellKeyed (Value.array xs) = WellKeyedItems xs
  WellKeyed (Value.object fs) = WellKeyedFields fs

  pub WellKeyedItems : {d : Deps} → Items d → Type 0
  WellKeyedItems nil = Unit
  WellKeyedItems (cons x xs) = WellKeyed x × WellKeyedItems xs

  pub WellKeyedFields : {d : Deps} → Fields d → Type 0
  WellKeyedFields end = Unit
  WellKeyedFields (field k x fs) = (has_key k fs ≡ false) × WellKeyed x × WellKeyedFields fs

mutual
  unfolding from_value from_items from_fields

  from_value-Extends : {d : Deps} (x : Value d) (h : Heap d) → Extends h (from_value x h).1
  from_value-Extends Value.null h = alloc-Extends _ h
  from_value-Extends (Value.bool b) h = alloc-Extends _ h
  from_value-Extends (Value.number n) h = alloc-Extends _ h
  from_value-Extends (Value.string s) h = alloc-Extends _ h
  from_value-Extends (Value.array xs) h =
      Extends-trans (from_items-Extends xs h) (alloc-Extends _ _)
  from_value-Extends (Value.object fs) h =
      Extends-trans (from_fields-Extends fs h) (alloc-Extends _ _)

  from_items-Extends : {d : Deps} (xs : Items d) (h : Heap d) → Extends h (from_items xs h).1
  from_items-Extends nil h = Extends-refl h
  from_items-Extends (cons x xs) h =
      Extends-trans (from_value-Extends x h) (from_items-Extends xs _)

  from_fields-Extends : {d : Deps} (fs : Fields d) (h : Heap d) → Extends h (from_fields fs h).1
  from_fields-Extends end h = Extends-refl h
  from_fields-Extends (field k x fs) h =
      Extends-trans (from_value-Extends x h)
        (Extends-trans (alloc_slot-Extends _ _) (from_fields-Extends fs _))

module _ {d : Deps} where
  -- A cell that was just made is read back, in every later heap.
  pub alloc-value :
      (v : InnerValue d) (h k : Heap d) → Extends (alloc v h).1 k → k.value (alloc v h).0 ≡ some v
  unfolding alloc
  alloc-value v h k e = e.value h.next_value (omega arith) ∙ ground arith

  pub alloc_slot-slot :
      (a : ℕ) (h k : Heap d) → Extends (alloc_slot a h).1 k → k.slot (alloc_slot a h).0 ≡ some a
  unfolding alloc_slot
  alloc_slot-slot a h k e = e.slot h.next_slot (omega arith) ∙ ground arith

  find-from_fields :
      (k : Bytes) (fs : Fields d) (h : Heap d)
      → has_key k fs ≡ false
      → find k (from_fields fs h).0 ≡ none
  unfolding from_fields find
  find-from_fields k end h e = refl
  find-from_fields k (field j x fs) h e =
      ground (arith, find-from_fields k fs (alloc_slot (from_value x h).0 (from_value x h).1).1)

  from_fields-Distinct :
      (fs : Fields d) (h : Heap d) → WellKeyedFields fs → Distinct (from_fields fs h).0
  unfolding from_fields WellKeyedFields
  from_fields-Distinct end h w = tt
  from_fields-Distinct (field k x fs) h w =
      (find-from_fields k fs _ w.0, from_fields-Distinct fs _ w.2)

  -- The claim at a leaf, an array and an object: what a fresh cell reads as.
  into_at-alloc :
      (r : ℕ) (v : InnerValue d) (h k : Heap d)
      → Extends (alloc v h).1 k
      → into_at r k (alloc v h).0 ≡ (elim r as (λ _. Option (Value d)) [
        | zero ↦ into_inner (λ _. some nil) (λ _. some end) v
        | suc s ↦ into_inner (into_items (into_at s k)) (into_fields (into_at s k) k) v
      ])
  unfolding into_at
  into_at-alloc zero v h k e = rw (alloc-value v h k e)
  into_at-alloc (suc r) v h k e = rw (alloc-value v h k e)

  pub truncate_items-zero : (xs : Items d) → truncate_items 0 xs ≡ nil
  unfolding truncate_items
  truncate_items-zero nil = refl
  truncate_items-zero (cons x xs) = refl

  pub truncate_fields-zero : (fs : Fields d) → truncate_fields 0 fs ≡ end
  unfolding truncate_fields
  truncate_fields-zero end = refl
  truncate_fields-zero (field k x fs) = refl

  leaf :
      (r : ℕ) (v : InnerValue d) (h k : Heap d) {x : Value d}
      → Extends (alloc v h).1 k
      → ((f : List ℕ → Option (Items d)) (g : Entries → Option (Fields d))
          → into_inner f g v ≡ some x)
      → into_at r k (alloc v h).0 ≡ some x
  leaf zero v h k e i = into_at-alloc zero v h k e ∙ i _ _
  leaf (suc r) v h k e i = into_at-alloc (suc r) v h k e ∙ i _ _

mutual
  unfolding from_value from_items from_fields into_inner into_items into_fields truncate
      truncate_items truncate_fields WellKeyed WellKeyedItems WellKeyedFields

  value-reads :
      {d : Deps} (x : Value d) (r : ℕ) (h k : Heap d)
      → WellKeyed x
      → Extends (from_value x h).1 k
      → into_at r k (from_value x h).0 ≡ some (truncate r x)
  value-reads Value.null r h k w e = leaf r _ h k e (λ f g. refl)
  value-reads (Value.bool b) r h k w e = leaf r _ h k e (λ f g. refl)
  value-reads (Value.number n) r h k w e = leaf r _ h k e (λ f g. refl)
  value-reads (Value.string s) r h k w e = leaf r _ h k e (λ f g. refl)
  value-reads (Value.array xs) zero h k w e =
      into_at-alloc zero _ _ k e ∙ rw (truncate_items-zero xs)
  value-reads (Value.array xs) (suc r) h k w e =
      into_at-alloc (suc r) _ _ k e
      ∙ rw (items-read xs r h k w (Extends-trans (alloc-Extends _ _) e))
  value-reads (Value.object fs) zero h k w e =
      into_at-alloc zero _ _ k e ∙ rw (truncate_fields-zero fs)
  value-reads {d} (Value.object fs) (suc r) h k w e =
      into_at-alloc (suc r) _ _ k e
      ∙ rw (
        d.entries-collect _ (from_fields-Distinct fs h w),
        fields-read fs r h k w (Extends-trans (alloc-Extends _ _) e),
      )

  items-read :
      {d : Deps} (xs : Items d) (r : ℕ) (h k : Heap d)
      → WellKeyedItems xs
      → Extends (from_items xs h).1 k
      → into_items (into_at r k) (from_items xs h).0 ≡ some (truncate_items (suc r) xs)
  items-read nil r h k w e = refl
  items-read (cons x xs) r h k w e = rw (
    value-reads x r h k w.0 (Extends-trans (from_items-Extends xs _) e),
    items-read xs r _ k w.1 e,
  )

  fields-read :
      {d : Deps} (fs : Fields d) (r : ℕ) (h k : Heap d)
      → WellKeyedFields fs
      → Extends (from_fields fs h).1 k
      → into_fields (into_at r k) k (from_fields fs h).0 ≡ some (truncate_fields (suc r) fs)
  fields-read end r h k w e = refl
  fields-read (field j x fs) r h k w e =
      let later = Extends-trans (from_fields-Extends fs _) e in
      rw (
        alloc_slot-slot _ _ k later,
        value-reads x r h k w.1 (Extends-trans (alloc_slot-Extends _ _) later),
        fields-read fs r _ k w.2 e,
      )

-- How many levels of arrays and objects with content a tree has.
unfoldable mutual
  pub depth : {d : Deps} → Value d → ℕ
  depth Value.null = 0
  depth (Value.bool b) = 0
  depth (Value.number n) = 0
  depth (Value.string s) = 0
  depth (Value.array xs) = depth_items xs
  depth (Value.object fs) = depth_fields fs

  pub depth_items : {d : Deps} → Items d → ℕ
  depth_items nil = 0
  depth_items (cons x xs) = max (suc (depth x)) (depth_items xs)

  pub depth_fields : {d : Deps} → Fields d → ℕ
  depth_fields end = 0
  depth_fields (field k x fs) = max (suc (depth x)) (depth_fields fs)

mutual
  unfolding truncate truncate_items truncate_fields depth depth_items depth_fields

  truncate-deep : {d : Deps} (x : Value d) (r : ℕ) → depth x ≤ r → truncate r x ≡ x
  truncate-deep Value.null r h = refl
  truncate-deep (Value.bool b) r h = refl
  truncate-deep (Value.number n) r h = refl
  truncate-deep (Value.string s) r h = refl
  truncate-deep (Value.array xs) r h = ap Value.array (truncate_items-deep xs r h)
  truncate-deep (Value.object fs) r h = ap Value.object (truncate_fields-deep fs r h)

  truncate_items-deep :
      {d : Deps} (xs : Items d) (r : ℕ) → depth_items xs ≤ r → truncate_items r xs ≡ xs
  truncate_items-deep nil zero h = refl
  truncate_items-deep nil (suc r) h = refl
  truncate_items-deep (cons x xs) zero h = absurd (omega arith)
  truncate_items-deep (cons x xs) (suc r) h =
      ap₂ cons (truncate-deep x r (omega arith)) (truncate_items-deep xs (suc r) (omega arith))

  truncate_fields-deep :
      {d : Deps} (fs : Fields d) (r : ℕ) → depth_fields fs ≤ r → truncate_fields r fs ≡ fs
  truncate_fields-deep end zero h = refl
  truncate_fields-deep end (suc r) h = refl
  truncate_fields-deep (field k x fs) zero h = absurd (omega arith)
  truncate_fields-deep (field k x fs) (suc r) h =
      ap₂ (field k) (truncate-deep x r (omega arith))
        (truncate_fields-deep fs (suc r) (omega arith))

-- Building a tree on a heap and reading it back with a recursion limit gives the tree cut off
-- below limit - 1 levels; for the limit 0, whose decrement wraps, below `usize::MAX` levels. The
-- tree has no object with two members of one name.
pub into-from_value :
    {d : Deps} (x : Value d) (h : Heap d) (limit : ℕ)
    → WellKeyed x
    → let (a, h') = from_value x h in
      into_with_recursion_limit h' a limit ≡ some (truncate (levels_below d limit) x)
unfolding into_with_recursion_limit
into-from_value {d} x h limit w =
    value-reads x (levels_below d limit) h (from_value x h).1 w (Extends-refl _)

-- A tree that is nested less deep than the limit comes back whole from its address in every later
-- heap, one in which all the cells and slots of the heap that the conversion left are unchanged.
pub into-from_value_whole :
    {d : Deps} (x : Value d) (h k : Heap d) (limit : ℕ)
    → WellKeyed x
    → depth x < limit
    → Extends (from_value x h).1 k
    → into_with_recursion_limit k (from_value x h).0 limit ≡ some x
unfolding into_with_recursion_limit
into-from_value_whole {d} x h k limit w deep e =
    value-reads x (levels_below d limit) h k w e
    ∙ ap some (truncate-deep x (levels_below d limit) (ground arith))

-- Building a tree keeps the cells below the next address.
mutual
  unfolding from_value from_items from_fields

  value-IsHeap : {d : Deps} (x : Value d) (h : Heap d) → IsHeap h → IsHeap (from_value x h).1
  value-IsHeap Value.null h w = alloc-IsHeap _ w
  value-IsHeap (Value.bool b) h w = alloc-IsHeap _ w
  value-IsHeap (Value.number n) h w = alloc-IsHeap _ w
  value-IsHeap (Value.string s) h w = alloc-IsHeap _ w
  value-IsHeap (Value.array xs) h w = alloc-IsHeap _ (items-IsHeap xs h w)
  value-IsHeap (Value.object fs) h w = alloc-IsHeap _ (fields-IsHeap fs h w)

  items-IsHeap : {d : Deps} (xs : Items d) (h : Heap d) → IsHeap h → IsHeap (from_items xs h).1
  items-IsHeap nil h w = w
  items-IsHeap (cons x xs) h w = items-IsHeap xs _ (value-IsHeap x h w)

  fields-IsHeap : {d : Deps} (fs : Fields d) (h : Heap d) → IsHeap h → IsHeap (from_fields fs h).1
  fields-IsHeap end h w = w
  fields-IsHeap (field k x fs) h w = fields-IsHeap fs _ (alloc_slot-IsHeap _ (value-IsHeap x h w))

pub from_value-IsHeap : {d : Deps} (x : Value d) (h : Heap d) → IsHeap h → IsHeap (from_value x h).1
from_value-IsHeap x h w = value-IsHeap x h w
