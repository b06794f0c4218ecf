-- ===== src/Ffi/Index/Inserts.antt =====
-- The lookup that inserts a missing last member.
use grip.Common.{
  ℕ, ◌≡◌, ◌≢◌, refl, sym, ◌∙◌, Option, none, some, List, [], ◌∷◌, arith, Bool-cases, Option-cases,
  ◌==◌, inl, inr, subst, ap,
}
use mathlib.Core.Option.{some-injective}
use grip.Common.Bytes.{Bytes, bytes_eq_iff, bytes_eq_refl}
use grip.Errors.{ok, err, Message}
use grip.Deps.{Deps}
use grip.Deps.Laws.{get-insert}
use grip.Gc.Heap.{InnerValue, Heap, alloc, alloc_slot, write, IsHeap}
use grip.Ffi.Index.{Found, current, insert_member, index_or_insert, default_at, dot_insert_loop}
use grip.Ffi.Index.Paths.{Member, get-member_of}

-- `k` still has every member and every slot's content of `h`.
pub record Grows {d : Deps} (h k : Heap d) : Type 0 where
  pub member : (a : ℕ) (j : Bytes) (s : ℕ) → Member h a j s → Member k a j s
  pub slot : (s b : ℕ) → h.slot s ≡ some b → k.slot s ≡ some b

get-insert_self :
    (d : Deps) (m : d.Map) (name : Bytes) (s : ℕ) → d.get (d.insert m name s) name ≡ some s
get-insert_self d m name s = get-insert d m name name s ∙ rw (bytes_eq_refl name)

get-insert_old :
    (d : Deps) (m : d.Map) (name j : Bytes) (s t : ℕ)
    → d.get m name ≡ none
    → d.get m j ≡ some t
    → d.get (d.insert m name s) j ≡ some t
get-insert_old d m name j s t n e = get-insert d m name j s ∙ ground (arith, bytes_eq_iff name j)

module _ {d : Deps} where
  map_unique :
      (h : Heap d) (a b : ℕ) (m m' : d.Map)
      → a ≡ b
      → h.value a ≡ some (InnerValue.object m)
      → h.value b ≡ some (InnerValue.object m')
      → m' ≡ m
  map_unique h a b m m' p e e' = cc

  pub Grows-refl : (h : Heap d) → Grows h h
  Grows-refl h = record { member = λ a j s m. m; slot = λ s b e. e }

  -- The heap after `insert_member`.
  inserted : Heap d → ℕ → d.Map → Bytes → InnerValue d → Heap d
  unfolding alloc alloc_slot write
  inserted h a m name v =
      write a (InnerValue.object (d.insert m name h.next_slot))
        (alloc_slot h.next_value (alloc v h).1).1

  insert_member-eq :
      (h : Heap d) (a : ℕ) (m : d.Map) (name : Bytes) (v : InnerValue d)
      → insert_member h a m name v ≡ (ok h.next_slot, inserted h a m name v)
  unfolding insert_member inserted
  insert_member-eq h a m name v =
      ap (λ (f : Found). (f, inserted h a m name v))
        (get-member_of h name (d.insert m name h.next_slot) h.next_slot
          (get-insert_self d m name h.next_slot))

  inserted-Member :
      (h : Heap d) (a : ℕ) (m : d.Map) (name : Bytes) (v : InnerValue d)
      → Member (inserted h a m name v) a name h.next_slot
  unfolding inserted
  inserted-Member h a m name v = record {
    map = d.insert m name h.next_slot;
    value = ground arith;
    get = get-insert_self d m name h.next_slot;
  }

  inserted-Grows :
      (h : Heap d) (a : ℕ) (m : d.Map) (name : Bytes) (v : InnerValue d)
      → IsHeap h
      → h.value a ≡ some (InnerValue.object m)
      → d.get m name ≡ none
      → Grows h (inserted h a m name v)
  unfolding inserted
  inserted-Grows h a m name v w e n = record {
    member = λ b j s q. elim (Bool-cases (a == b)) [
      | inl hit ↦ record {
        map = d.insert m name h.next_slot;
        value = ground arith;
        get = get-insert_old d m name j h.next_slot s n (
            subst (λ z. d.get z j ≡ some s) (map_unique h a b m q.map (ground arith) e q.value)
              q.get);
      }
      | inr miss ↦ record { map = q.map; value = ground (arith, w.values b, q.value); get = q.get }
    ];
    slot = λ s b q. ground (arith, w.slots s);
  }

  -- The four outcomes of one lookup that may insert.
  pub or_insert_found :
      (h : Heap d) (a : ℕ) (k : Bytes) (s : ℕ) (default : Option (InnerValue d))
      → Member h a k s
      → index_or_insert h a k default ≡ some (ok s, h)
  unfolding index_or_insert
  or_insert_found h a k s default q = rw q.value (ground (arith, q.get))

  or_insert_missing :
      (h : Heap d) (a : ℕ) (k : Bytes) (m : d.Map) (default : Option (InnerValue d))
      → h.value a ≡ some (InnerValue.object m)
      → d.get m k ≡ none
      → index_or_insert h a k default ≡ (elim default [
        | none ↦ some (err (Message.missing_member k), h)
        | some v ↦ some (ok h.next_slot, inserted h a m k v)
      ])
  unfolding index_or_insert
  or_insert_missing h a k m none e n = rw e (ground (arith, n))
  or_insert_missing h a k m (some v) e n = rw e (ground (arith, n, insert_member-eq h a m k v))

module _ {d : Deps} where
  unmade :
      (h : Heap d) (a : ℕ) (k : Bytes) (default : Option (InnerValue d)) (r : Found × Heap d)
      → h.value a ≡ none
      → index_or_insert h a k default ≡ some r
      → ⊥
  unfolding index_or_insert
  unmade h a k default r ev e = ground arith

  or_insert_other :
      (h : Heap d) (a : ℕ) (k : Bytes) (default : Option (InnerValue d)) (v : InnerValue d)
      → h.value a ≡ some v
      → ((m : d.Map) → v ≢ InnerValue.object m)
      → index_or_insert h a k default ≡ some (err (Message.member_of_non_object k), h)
  unfolding index_or_insert
  or_insert_other h a k default InnerValue.null ev ne = rw ev
  or_insert_other h a k default (InnerValue.bool b) ev ne = rw ev
  or_insert_other h a k default (InnerValue.number n) ev ne = rw ev
  or_insert_other h a k default (InnerValue.string s) ev ne = rw ev
  or_insert_other h a k default (InnerValue.array cells) ev ne = rw ev
  or_insert_other h a k default (InnerValue.object m) ev ne = absurd (ne m refl)

-- A result of such a lookup is one of three: the member that is there, a new member, or an error
-- with the heap as it was.
or_insert_cases :
    {d : Deps} (h : Heap d) (a : ℕ) (k : Bytes) (default : Option (InnerValue d))
    (P : Found × Heap d → Type 0)
    → ((s : ℕ) → Member h a k s → P (ok s, h))
    → ((m : d.Map) (v : InnerValue d)
        → h.value a ≡ some (InnerValue.object m)
        → d.get m k ≡ none
        → default ≡ some v
        → P (ok h.next_slot, inserted h a m k v))
    → ((msg : Message) → P (err msg, h))
    → (r : Found × Heap d) → index_or_insert h a k default ≡ some r
    → P r
or_insert_cases {d} h a k default P found made refused r e = go (h.value a) refl
  where
    same : (r' : Found × Heap d) → index_or_insert h a k default ≡ some r' → P r' → P r
    same r' e' p = subst P (some-injective _ _ (sym e' ∙ e)) p

    object_case :
        (m : d.Map) (got : Option ℕ)
        → h.value a ≡ some (InnerValue.object m)
        → d.get m k ≡ got
        → P r
    object_case m (some s) ev g =
        let there : Member h a k s = record { map = m; value = ev; get = g } in
        same (ok s, h) (or_insert_found h a k s default there) (found s there)
    object_case m none ev g = missing default refl
      where
        missing : (o : Option (InnerValue d)) → default ≡ o → P r
        missing none q =
            same (err (Message.missing_member k), h)
              (or_insert_missing h a k m default ev g ∙ rw q refl) (refused _)
        missing (some v) q =
            same (ok h.next_slot, inserted h a m k v)
              (or_insert_missing h a k m default ev g ∙ rw q refl) (made m v ev g q)

    go : (o : Option (InnerValue d)) → h.value a ≡ o → P r
    go none ev = absurd (unmade h a k default r ev e)
    go (some (InnerValue.object m)) ev = object_case m (d.get m k) ev refl
    go (some InnerValue.null) ev = same _ (or_insert_other h a k default _ ev (λ m. cc)) (refused _)
    go (some (InnerValue.bool b)) ev =
        same _ (or_insert_other h a k default _ ev (λ m. cc)) (refused _)
    go (some (InnerValue.number n)) ev =
        same _ (or_insert_other h a k default _ ev (λ m. cc)) (refused _)
    go (some (InnerValue.string s)) ev =
        same _ (or_insert_other h a k default _ ev (λ m. cc)) (refused _)
    go (some (InnerValue.array cells)) ev =
        same _ (or_insert_other h a k default _ ev (λ m. cc)) (refused _)

pub ok-injective : (s t : ℕ) → ◌≡◌ {A = Found} (ok s) (ok t) → s ≡ t
ok-injective s t e = cc

pub err-ne-ok : (m : Message) (t : ℕ) → ◌≡◌ {A = Found} (err m) (ok t) → ⊥
err-ne-ok m t e = cc

-- What a successful step of the walk leaves: the member, in a heap that has grown; with no default
-- the heap is the old one.
pub record Walked {d : Deps} (h : Heap d) (a : ℕ) (k : Bytes) (default : Option (InnerValue d))
    (s : ℕ) (h' : Heap d) : Type 0 where
  pub member : Member h' a k s
  pub grows : Grows h h'
  pub same : default ≡ none → h' ≡ h

module _ {d : Deps} where
  pub or_insert-Walked :
      (h : Heap d) (a : ℕ) (k : Bytes) (default : Option (InnerValue d)) (s : ℕ) (h' : Heap d)
      → IsHeap h
      → index_or_insert h a k default ≡ some (ok s, h')
      → Walked h a k default s h'
  or_insert-Walked h a k default s h' w e =
      or_insert_cases h a k default (λ r. (t : ℕ) → r.0 ≡ ok t → Walked h a k default t r.1)
        (λ s' there t p. record {
          member = subst (Member h a k) (ok-injective s' t p) there;
          grows = Grows-refl h;
          same = λ q. refl;
        })
        (λ m v ev g q t p. record {
          member =
              subst (Member (inserted h a m k v) a k) (ok-injective h.next_slot t p)
                (inserted-Member h a m k v);
          grows = inserted-Grows h a m k v w ev g;
          same = λ z. cc;
        })
        (λ msg t p. absurd (err-ne-ok msg t p)) (ok s, h') e s refl

  pub or_insert-err :
      (h : Heap d) (a : ℕ) (k : Bytes) (default : Option (InnerValue d)) (msg : Message)
      (h' : Heap d)
      → index_or_insert h a k default ≡ some (err msg, h')
      → h' ≡ h
  or_insert-err h a k default msg h' e =
      or_insert_cases h a k default (λ r. (x : Message) → r.0 ≡ err x → r.1 ≡ h)
        (λ s there x p. refl) (λ m v ev g q x p. absurd (err-ne-ok x h.next_slot (sym p)))
        (λ y x p. refl) (err msg, h') e msg refl

  -- One round of the loop, and a successful one taken apart.
  pub insert_step :
      (h : Heap d) (name : Bytes) (self : ℕ) (default : Option (InnerValue d)) (k : Bytes)
      (rest : List Bytes) (it : Option ℕ) (a : ℕ) (r : Found) (h' : Heap d)
      → k ≢ []
      → current h self it ≡ some a
      → index_or_insert h a k (default_at rest default) ≡ some (r, h')
      → dot_insert_loop h name self default (k ∷ rest) it ≡ (elim r [
        | ok s ↦ dot_insert_loop h' name self default rest (some s)
        | err m ↦ some (err m, h')
      ])
  unfolding dot_insert_loop
  insert_step h name self default [] rest it a r h' ne c i = absurd (ne refl)
  insert_step h name self default (x ∷ k) rest it a (ok s) h' ne c i =
      rw (dot_insert_loop, c) (rw (dot_insert_loop, i) refl)
  insert_step h name self default (x ∷ k) rest it a (err m) h' ne c i =
      rw (dot_insert_loop, c) (rw (dot_insert_loop, i) refl)

module _ {d : Deps} where
  -- With a default, the lookup in an object always succeeds.
  pub or_insert-ok :
      (h : Heap d) (a : ℕ) (k : Bytes) (m : d.Map) (v : InnerValue d)
      → h.value a ≡ some (InnerValue.object m)
      → (s : ℕ) × (h' : Heap d) × (index_or_insert h a k (some v) ≡ some (ok s, h'))
  or_insert-ok h a k m v e = elim (Option-cases (d.get m k)) [
    | inl n ↦ (h.next_slot, inserted h a m k v, or_insert_missing h a k m (some v) e n)
    | inr (s, g) ↦ (s, h, or_insert_found h a k s (some v) (record { map = m; value = e; get = g }))
  ]
