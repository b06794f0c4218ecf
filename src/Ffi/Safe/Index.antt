-- ===== src/Ffi/Safe/Index.antt =====
-- The lookups of rust/src/ffi/ext.rs in a closed heap lead to slots that exist.
use grip.Common.{ℕ, ◌<◌, ◌≡◌, refl, Bool, true, false, Option, none, some, List, [], ◌∷◌, arith}
use grip.Common.Bytes.{Bytes, split}
use grip.Errors.{ok, err, Message}
use grip.Deps.{Deps}
use grip.Gc.Heap.{InnerValue, Heap, alloc, alloc_slot, write}
use grip.Gc.Closed.{
  Refers, Closed, Grown, Grown-refl, Grown-trans, Refers-grown, alloc-Closed, alloc-Grown,
  alloc_slot-Closed, alloc_slot-Grown, write-Closed, write-Grown, get-below, insert-Refers,
}
use grip.Ffi.Index.{
  Found, member_of, index_plain, current, dot_loop, dot_index_safe_rc_gc,
  index_selective_safe_rc_gc, insert_member, insert_in, index_or_insert, default_at,
  dot_insert_loop, dot_index_safe_or_insert_rc_gc, index_selective_safe_or_insert_rc_gc,
}

module _ {d : Deps} where
  -- What a lookup found is a slot of the heap.
  abbrev pub Below : Heap d → Found → Type 0
  Below h (ok s) = s < h.next_slot
  Below h (err m) = Unit

  -- Where a walk stands.
  abbrev At : Heap d → ℕ → Option ℕ → Type 0
  At h self none = self < h.next_value
  At h self (some s) = s < h.next_slot

  member_of-Below :
      (h : Heap d) (name : Bytes) (v : InnerValue d) → Refers h v → Below h (member_of name v)
  unfolding member_of
  member_of-Below h name (InnerValue.object m) r =
      go (d.get m name) (λ s p. get-below h m name s r p)
    where
      go :
          (o : Option ℕ)
          → ((s : ℕ) → o ≡ some s → s < h.next_slot)
          → Below h (elim o [ some s ↦ ok s | none ↦ err (Message.missing_member name) ])
      go none k = tt
      go (some s) k = k s refl
  member_of-Below h name InnerValue.null r = tt
  member_of-Below h name (InnerValue.bool b) r = tt
  member_of-Below h name (InnerValue.number n) r = tt
  member_of-Below h name (InnerValue.string s) r = tt
  member_of-Below h name (InnerValue.array cells) r = tt

  index_plain-Below :
      (h : Heap d) (a : ℕ) (name : Bytes)
      → Closed h
      → a < h.next_value
      → (f : Found) × (index_plain h a name ≡ some f) × Below h f
  unfolding index_plain
  index_plain-Below h a name c l =
      let (v, e, r) = c.value a l in (_, rw e refl, member_of-Below h name v r)

  current-below :
      (h : Heap d) (self : ℕ) (it : Option ℕ)
      → Closed h
      → At h self it
      → (a : ℕ) × (current h self it ≡ some a) × (a < h.next_value)
  unfolding current
  current-below h self none c l = (self, refl, l)
  current-below h self (some s) c l = c.slot s l

  dot_loop-Below :
      (h : Heap d) (name : Bytes) (self : ℕ) (pieces : List Bytes) (it : Option ℕ)
      → Closed h
      → At h self it
      → (f : Found) × (dot_loop h name self pieces it ≡ some f) × Below h f
  unfolding dot_loop
  dot_loop-Below h name self [] none c l = (_, refl, tt)
  dot_loop-Below h name self [] (some s) c l = (_, refl, l)
  dot_loop-Below h name self ([] ∷ rest) it c l = (_, refl, tt)
  dot_loop-Below h name self ((b ∷ element) ∷ rest) it c l =
      let (a, ea, la) = current-below h self it c l in
      let (f, ef, lf) = index_plain-Below h a (b ∷ element) c la in
      elim f
          as (λ f.
            index_plain h a (b ∷ element) ≡ some f
            → Below h f
            → (g : Found) × (dot_loop h name self ((b ∷ element) ∷ rest) it ≡ some g) × Below h g) [
              | err m ↦ λ q k. (err m, rw (dot_loop, ea) (rw q refl), tt)
              | ok s ↦ λ q k.
                  let (g, eg, lg) = dot_loop-Below h name self rest (some s) c k in
                  (g, rw (dot_loop, ea) (rw q eg), lg)
            ]
        ef lf

  pub index_selective-Below :
      (h : Heap d) (self : ℕ) (name : Bytes) (dot : Bool)
      → Closed h
      → self < h.next_value
      → (f : Found) × (index_selective_safe_rc_gc h self name dot ≡ some f) × Below h f
  unfolding index_selective_safe_rc_gc dot_index_safe_rc_gc
  index_selective-Below h self name true c l = dot_loop-Below h name self (split b'.' name) none c l
  index_selective-Below h self name false c l = index_plain-Below h self name c l

  -- A lookup that may have made members.
  pub record Inserted (h : Heap d) (f : Found) (h' : Heap d) : Type 0 where
    pub closed : Closed h'
    pub grown : Grown h h'
    pub below : Below h' f

  Inserted-trans : {h k l : Heap d} {f : Found} → Grown h k → Inserted k f l → Inserted h f l
  Inserted-trans g i = record { closed = i.closed; grown = Grown-trans g i.grown; below = i.below }

  unchanged : (h : Heap d) (f : Found) → Closed h → Below h f → Inserted h f h
  unchanged h f c l = record { closed = c; grown = Grown-refl h; below = l }

  insert_member-Inserted :
      (h : Heap d) (a : ℕ) (m : d.Map) (name : Bytes) (v : InnerValue d)
      → Closed h
      → Refers h (InnerValue.object m)
      → Refers h v
      → Inserted h (insert_member h a m name v).0 (insert_member h a m name v).1
  unfolding insert_member alloc alloc_slot write
  insert_member-Inserted h a m name v c r rv =
      let h₁ = (alloc v h).1 in
      let s = (alloc_slot h.next_value h₁).0 in
      let h₂ = (alloc_slot h.next_value h₁).1 in
      let c₂ = alloc_slot-Closed h.next_value h₁ (alloc-Closed v h c rv) (omega arith) in
      let g = Grown-trans (alloc-Grown v h) (alloc_slot-Grown h.next_value h₁) in
      let m' = d.insert m name s in
      let r' =
        insert-Refers h₂ m name s (Refers-grown h h₂ (InnerValue.object m) g r) (omega arith) in
      record {
        closed = write-Closed a (InnerValue.object m') h₂ c₂ r';
        grown = Grown-trans g (write-Grown a (InnerValue.object m') h₂);
        below = member_of-Below h₂ name (InnerValue.object m') r';
      }

  -- What a member is made of, when one is made.
  abbrev pub Default : Heap d → Option (InnerValue d) → Type 0
  Default h none = Unit
  Default h (some v) = Refers h v

  insert_in-Inserted :
      (h : Heap d) (a : ℕ) (name : Bytes) (default : Option (InnerValue d)) (v : InnerValue d)
      → Closed h
      → Default h default
      → Refers h v
      → Inserted h (insert_in h a name default v).0 (insert_in h a name default v).1
  unfolding insert_in
  insert_in-Inserted h a name default (InnerValue.object m) c p r =
      go (d.get m name) default (λ s q. get-below h m name s r q) p
    where
      go :
          (o : Option ℕ) (default : Option (InnerValue d))
          → ((s : ℕ) → o ≡ some s → s < h.next_slot)
          → Default h default
          → let x : Found × Heap d = elim o [
            | some target ↦ (ok target, h)
            | none ↦ elim default [
              | none ↦ (err (Message.missing_member name), h)
              | some v ↦ insert_member h a m name v
            ]
          ] in
            Inserted h x.0 x.1
      go (some s) default k p = unchanged h (ok s) c (k s refl)
      go none none k p = unchanged h _ c tt
      go none (some v) k p = insert_member-Inserted h a m name v c r p
  insert_in-Inserted h a name default InnerValue.null c p r = unchanged h _ c tt
  insert_in-Inserted h a name default (InnerValue.bool b) c p r = unchanged h _ c tt
  insert_in-Inserted h a name default (InnerValue.number n) c p r = unchanged h _ c tt
  insert_in-Inserted h a name default (InnerValue.string s) c p r = unchanged h _ c tt
  insert_in-Inserted h a name default (InnerValue.array cells) c p r = unchanged h _ c tt

  index_or_insert-Inserted :
      (h : Heap d) (a : ℕ) (name : Bytes) (default : Option (InnerValue d))
      → Closed h
      → Default h default
      → a < h.next_value
      → (f : Found) × (h' : Heap d) × (index_or_insert h a name default ≡ some (f, h'))
        × Inserted h f h'
  unfolding index_or_insert
  index_or_insert-Inserted h a name default c p l =
      let (v, e, r) = c.value a l in (_, _, rw e refl, insert_in-Inserted h a name default v c p r)

  Default-grown :
      (h k : Heap d) (default : Option (InnerValue d))
      → Grown h k
      → Default h default
      → Default k default
  Default-grown h k none g p = tt
  Default-grown h k (some v) g p = Refers-grown h k v g p

  default_at-Default :
      (h : Heap d) (rest : List Bytes) (default : Option (InnerValue d))
      → Default h default
      → Default h (default_at rest default)
  default_at-Default h [] default p = p
  default_at-Default h (x ∷ xs) default p = tt

  dot_insert_loop-Inserted :
      (h : Heap d) (name : Bytes) (self : ℕ) (default : Option (InnerValue d)) (pieces : List Bytes)
      (it : Option ℕ)
      → Closed h
      → Default h default
      → At h self it
      → (f : Found) × (h' : Heap d) × (dot_insert_loop h name self default pieces it ≡ some (f, h'))
        × Inserted h f h'
  unfolding dot_insert_loop
  dot_insert_loop-Inserted h name self default [] none c p l = (_, _, refl, unchanged h _ c tt)
  dot_insert_loop-Inserted h name self default [] (some s) c p l = (_, _, refl, unchanged h _ c l)
  dot_insert_loop-Inserted h name self default ([] ∷ rest) it c p l =
      (_, _, refl, unchanged h _ c tt)
  dot_insert_loop-Inserted h name self default ((b ∷ element) ∷ rest) it c p l =
      let (a, ea, la) = current-below h self it c l in
      let (f, k, ef, i) =
        index_or_insert-Inserted h a (b ∷ element) (default_at rest default) c
          (default_at-Default h rest default p) la in
      elim f
          as (λ f.
            index_or_insert h a (b ∷ element) (default_at rest default) ≡ some (f, k)
            → Inserted h f k
            → (g : Found) × (h' : Heap d) × (dot_insert_loop h name self default
                  ((b ∷ element) ∷ rest) it
                ≡ some (g, h'))
              × Inserted h g h') [
                | err m ↦ λ q i. (err m, k, rw (dot_insert_loop, ea) (rw q refl), i)
                | ok s ↦ λ q i.
                    let (g, h', eg, j) =
                      dot_insert_loop-Inserted k name self default rest (some s) i.closed
                        (Default-grown h k default i.grown p) i.below in
                    (g, h', rw (dot_insert_loop, ea) (rw q eg), Inserted-trans i.grown j)
              ]
        ef i

  pub index_selective_or_insert-Inserted :
      (h : Heap d) (self : ℕ) (name : Bytes) (dot : Bool) (default : Option (InnerValue d))
      → Closed h
      → Default h default
      → self < h.next_value
      → (f : Found) × (h' : Heap d) × (index_selective_safe_or_insert_rc_gc h self name dot default
          ≡ some (f, h'))
        × Inserted h f h'
  unfolding index_selective_safe_or_insert_rc_gc dot_index_safe_or_insert_rc_gc
  index_selective_or_insert-Inserted h self name true default c p l =
      dot_insert_loop-Inserted h name self default (split b'.' name) none c p l
  index_selective_or_insert-Inserted h self name false default c p l =
      index_or_insert-Inserted h self name default c p l
