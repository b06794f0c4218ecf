-- ===== src/Ffi/Index/Walks.antt =====
-- `dot_index_safe_or_insert_rc_gc` along a whole path.
use grip.Common.{
  ℕ, ◌≡◌, ◌≢◌, refl, sym, ◌∙◌, Option, none, some, List, [], ◌∷◌, arith, Option-cases, inl, inr,
  subst, ap,
}
use mathlib.Core.Option.{some-injective}
use grip.Common.Bytes.{Bytes}
use grip.Errors.{ok, err, Message}
use grip.Deps.{Deps}
use grip.Gc.Heap.{InnerValue, Heap, IsHeap}
use grip.Ffi.Index.{
  Found, current, dot_index_safe_rc_gc, index_or_insert, default_at, dot_insert_loop,
  dot_index_safe_or_insert_rc_gc,
}
use grip.Ffi.Index.Paths.{Member, Resolves, last, step, split-cons, dot_index-Resolves}
use grip.Ffi.Index.Inserts.{
  Grows, or_insert-Walked, insert_step, or_insert_found, err-ne-ok, ok-injective,
}

module _ {d : Deps} (name : Bytes) (self : ℕ) (default : Option (InnerValue d)) where
  abbrev insert_walk : Heap d → List Bytes → Option ℕ → Option (Found × Heap d)
  insert_walk h ks it = dot_insert_loop h name self default ks it

  result_ok :
      (m : Message) (t : ℕ) (h h' : Heap d)
      → ◌≡◌ {A = Option (Found × Heap d)} (some (err m, h)) (some (ok t, h'))
      → ⊥
  result_ok m t h h' e = err-ne-ok m t (ap (λ (r : Found × Heap d). r.0) (some-injective _ _ e))

  round_ok :
      (h : Heap d) (k : Bytes) (rest : List Bytes) (it : Option ℕ) (a t : ℕ) (h' : Heap d)
      → current h self it ≡ some a
      → insert_walk h (k ∷ rest) it ≡ some (ok t, h')
      → (s : ℕ) × (h₁ : Heap d) × (k ≢ [])
        × (index_or_insert h a k (default_at rest default) ≡ some (ok s, h₁))
        × (insert_walk h₁ rest (some s) ≡ some (ok t, h'))
  unfolding dot_insert_loop
  round_ok h [] rest it a t h' c e = absurd (result_ok _ t h h' e)
  round_ok h (x ∷ k) rest it a t h' c e =
      go (index_or_insert h a (x ∷ k) (default_at rest default)) refl
    where
      go :
          (o : Option (Found × Heap d))
          → index_or_insert h a (x ∷ k) (default_at rest default) ≡ o
          → (s : ℕ) × (h₁ : Heap d) × (x ∷ k ≢ [])
            × (index_or_insert h a (x ∷ k) (default_at rest default) ≡ some (ok s, h₁))
            × (insert_walk h₁ rest (some s) ≡ some (ok t, h'))
      go none i = absurd (ground arith)
      go (some (ok s, h₁)) i = (
        s,
        h₁,
        λ q. cc,
        i,
        sym (insert_step h name self default (x ∷ k) rest it a (ok s) h₁ (λ q. cc) c i) ∙ e,
      )
      go (some (err m, h₁)) i = absurd (
          result_ok m t h₁ h'
            (sym (insert_step h name self default (x ∷ k) rest it a (err m) h₁ (λ q. cc) c i) ∙ e))

  slot_made :
      (h : Heap d) (k : Bytes) (rest : List Bytes) (s t : ℕ) (h' : Heap d)
      → insert_walk h (k ∷ rest) (some s) ≡ some (ok t, h')
      → (b : ℕ) × (h.slot s ≡ some b)
  unfolding dot_insert_loop current
  slot_made h [] rest s t h' e = absurd (result_ok _ t h h' e)
  slot_made h (x ∷ k) rest s t h' e = elim (Option-cases (h.slot s)) [
    | inl n ↦ absurd (ground arith)
    | inr (b, eb) ↦ (b, eb)
  ]

  walk_end :
      (h : Heap d) (s t : ℕ) (h' : Heap d)
      → insert_walk h [] (some s) ≡ some (ok t, h')
      → (s ≡ t) × (h ≡ h')
  unfolding dot_insert_loop
  walk_end h s t h' e =
      let p = some-injective _ _ e in
      (ok-injective s t (ap (λ (r : Found × Heap d). r.0) p), ap (λ (r : Found × Heap d). r.1) p)

  walk :
      (h : Heap d) (k : Bytes) (ks : List Bytes) (it : Option ℕ) (a t : ℕ) (h' : Heap d)
      → IsHeap h
      → current h self it ≡ some a
      → insert_walk h (k ∷ ks) it ≡ some (ok t, h')
      → Resolves h' t a (k ∷ ks) × Grows h h'
  unfolding current
  walk h k [] it a t h' w c e =
      let (s, h₁, ne, i, r) = round_ok h k [] it a t h' c e in
      let (es, eh) = walk_end h₁ s t h' r in
      let found = or_insert-Walked h a k default s h₁ w i in
      (
        last ne (subst (λ z. Member z a k t) eh (subst (Member h₁ a k) es found.member)),
        subst (Grows h) eh found.grows,
      )
  walk h k (k' ∷ ks) it a t h' w c e =
      let (s, h₁, ne, i, r) = round_ok h k (k' ∷ ks) it a t h' c e in
      let found = or_insert-Walked h a k none s h₁ w i in
      let r' : insert_walk h (k' ∷ ks) (some s) ≡ some (ok t, h') =
        subst (λ z. insert_walk z (k' ∷ ks) (some s) ≡ some (ok t, h')) (found.same refl) r in
      let (b, eb) = slot_made h k' ks s t h' r' in
      let (onward, grown) = walk h k' ks (some s) b t h' w eb r' in
      let there = grown.member a k s (subst (λ z. Member z a k s) (found.same refl) found.member) in
      (step ne there (grown.slot s b eb) onward, grown)

-- After `dot_index_safe_or_insert_rc_gc` has answered with a slot in a well-formed heap, the plain
-- lookup of the same name finds that slot in the new heap, and every member and every slot's content
-- of the old heap is still there.
pub or_insert-index :
    {d : Deps} (h : Heap d) (self : ℕ) (name : Bytes) (default : Option (InnerValue d)) (t : ℕ)
    (h' : Heap d)
    → IsHeap h
    → dot_index_safe_or_insert_rc_gc h self name default ≡ some (ok t, h')
    → (dot_index_safe_rc_gc h' self name ≡ some (ok t)) × Grows h h'
unfolding dot_index_safe_or_insert_rc_gc current
or_insert-index h self name default t h' w e =
    let (k, ks, p) = split-cons b'.' name in
    let (there, grown) =
      walk name self default h k ks none self t h' w refl
        (subst (λ z. dot_insert_loop h name self default z none ≡ some (ok t, h')) p e) in
    ((dot_index-Resolves h' self name t).1 (subst (Resolves h' t self) (sym p) there), grown)

module _ {d : Deps} (h : Heap d) (name : Bytes) (self t : ℕ) (default : Option (InnerValue d)) where
  walk_found :
      (it : Option ℕ) {a : ℕ} {ks : List Bytes}
      → current h self it ≡ some a
      → Resolves h t a ks
      → dot_insert_loop h name self default ks it ≡ some (ok t, h)
  unfolding current dot_insert_loop
  walk_found it c (last {a} {k} ne m) =
      insert_step h name self default k [] it a (ok t) h ne c (or_insert_found h a k t default m)
  walk_found it c (step {a} {b} {s} {k} {ks} ne m eb r) =
      insert_step h name self default k ks it a (ok s) h ne c
        (or_insert_found h a k s (default_at ks default) m)
      ∙ walk_found (some s) eb r

-- When the plain lookup of a name finds a slot, `dot_index_safe_or_insert_rc_gc` answers with the
-- same slot and leaves the heap as it is, whatever the default.
pub index-or_insert :
    {d : Deps} (h : Heap d) (self : ℕ) (name : Bytes) (default : Option (InnerValue d)) (t : ℕ)
    → dot_index_safe_rc_gc h self name ≡ some (ok t)
    → dot_index_safe_or_insert_rc_gc h self name default ≡ some (ok t, h)
unfolding dot_index_safe_or_insert_rc_gc current
index-or_insert h self name default t e =
    walk_found h name self t default none refl ((dot_index-Resolves h self name t).0 e)
