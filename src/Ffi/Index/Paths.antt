-- ===== src/Ffi/Index/Paths.antt =====
-- Dotted paths: the lookup decides a relation, and the lookup that inserts agrees with it.
use grip.Common.{
  ℕ, ◌≡◌, ◌≢◌, ◌↔◌, refl, sym, ◌∙◌, Option, none, some, List, [], ◌∷◌, arith, Option-cases,
  Bool-cases, ◌==◌, inl, inr, subst, ap,
}
use grip.Common.Bytes.{Bytes, split}
use grip.Errors.{ok, err, Message}
use grip.Deps.{Deps}
use grip.Gc.Heap.{InnerValue, Heap}
use grip.Ffi.Index.{Found, member_of, index_plain, current, dot_loop, dot_index_safe_rc_gc}

-- The member `k` of the object at address `a` is in the slot `s`.
pub record Member {d : Deps} (h : Heap d) (a : ℕ) (k : Bytes) (s : ℕ) : Type 0 where
  pub map : d.Map
  pub value : h.value a ≡ some (InnerValue.object map)
  pub get : d.get map k ≡ some s

-- The path `ks` leads from the object at `a` to a slot: each piece is a non-empty name of a member,
-- and the value of each member but the last is the object that the path goes on from.
pub data Resolves {d : Deps} (h : Heap d) (t : ℕ) : ℕ → List Bytes → Type 0 where
  last : {a : ℕ} {k : Bytes} → k ≢ [] → Member h a k t → Resolves h t a (k ∷ [])
  step :
      {a b s : ℕ} {k : Bytes} {ks : List Bytes}
      → k ≢ []
      → Member h a k s
      → h.slot s ≡ some b
      → Resolves h t b ks
      → Resolves h t a (k ∷ ks)

not_ok : (m : Message) (t : ℕ) → ◌≡◌ {A = Option Found} (some (err m)) (some (ok t)) → ⊥
not_ok m t e = cc

-- The text up to the first separator is a piece, so there is always a first piece.
pub split-cons : (sep : ℕ) (s : Bytes) → (k : Bytes) × (ks : List Bytes) × (split sep s ≡ k ∷ ks)
unfolding split
split-cons sep [] = ([], [], refl)
split-cons sep (c ∷ s) = elim (Bool-cases (c == sep)) [
  | inl hit ↦ ([], split sep s, rw hit)
  | inr miss ↦ let (k, ks, e) = split-cons sep s in (c ∷ k, ks, rw miss (rw e refl))
]

module _ {d : Deps} (h : Heap d) where
  member_of-ok :
      (k : Bytes) (v : InnerValue d) (s : ℕ)
      → member_of k v ≡ ok s
      → (m : d.Map) × (v ≡ InnerValue.object m) × (d.get m k ≡ some s)
  unfolding member_of
  member_of-ok k (InnerValue.object m) s e = (m, refl, ground arith)
  member_of-ok k InnerValue.null s e = cc
  member_of-ok k (InnerValue.bool b) s e = cc
  member_of-ok k (InnerValue.number n) s e = cc
  member_of-ok k (InnerValue.string x) s e = cc
  member_of-ok k (InnerValue.array cells) s e = cc

  pub get-member_of :
      (k : Bytes) (m : d.Map) (s : ℕ)
      → d.get m k ≡ some s
      → member_of {d = d} k (InnerValue.object m) ≡ ok s
  unfolding member_of
  get-member_of k m s e = ground arith

  pub index_plain-Member :
      (a : ℕ) (k : Bytes) (s : ℕ) → index_plain h a k ≡ some (ok s) → Member h a k s
  unfolding index_plain
  index_plain-Member a k s e = elim (Option-cases (h.value a)) [
    | inl n ↦ absurd (ground arith)
    | inr (v, ev) ↦
        let (m, em, got) = member_of-ok k v s (ground arith) in
        record { map = m; value = ev ∙ ap some em; get = got }
  ]

  pub Member-index_plain :
      (a : ℕ) (k : Bytes) (s : ℕ) → Member h a k s → index_plain h a k ≡ some (ok s)
  unfolding index_plain
  Member-index_plain a k s m = rw m.value (ap some (get-member_of k m.map s m.get))

  -- One round of the loop at a piece that is not empty.
  dot_step :
      (name : Bytes) (self : ℕ) (k : Bytes) (rest : List Bytes) (it : Option ℕ) (a : ℕ) (r : Found)
      → k ≢ []
      → current h self it ≡ some a
      → index_plain h a k ≡ some r
      → dot_loop h name self (k ∷ rest) it
        ≡ (elim r [ ok s ↦ dot_loop h name self rest (some s) | err m ↦ some (err m) ])
  unfolding dot_loop
  dot_step name self [] rest it a r ne c i = absurd (ne refl)
  dot_step name self (x ∷ k) rest it a (ok s) ne c i = rw (dot_loop, c) (rw (dot_loop, i) refl)
  dot_step name self (x ∷ k) rest it a (err m) ne c i = rw (dot_loop, c) (rw (dot_loop, i) refl)

  loop_end : (name : Bytes) (self s t : ℕ) → dot_loop h name self [] (some s) ≡ some (ok t) → s ≡ t
  unfolding dot_loop
  loop_end name self s t e = ground arith

  -- Success of the loop at a path with a first piece, taken apart.
  dot_step-ok :
      (name : Bytes) (self : ℕ) (k : Bytes) (rest : List Bytes) (it : Option ℕ) (a t : ℕ)
      → current h self it ≡ some a
      → dot_loop h name self (k ∷ rest) it ≡ some (ok t)
      → (s : ℕ) × (k ≢ [])
        × (index_plain h a k ≡ some (ok s))
        × (dot_loop h name self rest (some s) ≡ some (ok t))
  unfolding dot_loop
  dot_step-ok name self [] rest it a t c e = absurd (ground arith)
  dot_step-ok name self (x ∷ k) rest it a t c e = elim (Option-cases (index_plain h a (x ∷ k))) [
    | inl n ↦ absurd (ground arith)
    | inr (ok s, i) ↦
        (s, λ q. cc, i, sym (dot_step name self (x ∷ k) rest it a (ok s) (λ q. cc) c i) ∙ e)
    | inr (err m, i) ↦
        absurd (not_ok m t (sym (dot_step name self (x ∷ k) rest it a (err m) (λ q. cc) c i) ∙ e))
  ]

  -- The loop goes on only from a slot that has been made.
  dot_loop-slot :
      (name : Bytes) (self : ℕ) (k : Bytes) (rest : List Bytes) (s t : ℕ)
      → dot_loop h name self (k ∷ rest) (some s) ≡ some (ok t)
      → (b : ℕ) × (h.slot s ≡ some b)
  unfolding dot_loop current
  dot_loop-slot name self [] rest s t e = absurd (ground arith)
  dot_loop-slot name self (x ∷ k) rest s t e = elim (Option-cases (h.slot s)) [
    | inl n ↦ absurd (ground arith)
    | inr (b, eb) ↦ (b, eb)
  ]

  dot_loop-Resolves :
      (name : Bytes) (self : ℕ) (k : Bytes) (ks : List Bytes) (it : Option ℕ) (a t : ℕ)
      → current h self it ≡ some a
      → dot_loop h name self (k ∷ ks) it ≡ some (ok t)
      → Resolves h t a (k ∷ ks)
  unfolding current
  dot_loop-Resolves name self k [] it a t c e =
      let (s, ne, i, r) = dot_step-ok name self k [] it a t c e in
      last ne
        (index_plain-Member a k t (i ∙ ap (λ (z : ℕ). some (ok z)) (loop_end name self s t r)))
  dot_loop-Resolves name self k (k' ∷ ks) it a t c e =
      let (s, ne, i, r) = dot_step-ok name self k (k' ∷ ks) it a t c e in
      let (b, eb) = dot_loop-slot name self k' ks s t r in
      step ne (index_plain-Member a k s i) eb (dot_loop-Resolves name self k' ks (some s) b t eb r)

  Resolves-dot_loop :
      (name : Bytes) (self t : ℕ) (it : Option ℕ) {a : ℕ} {ks : List Bytes}
      → current h self it ≡ some a
      → Resolves h t a ks
      → dot_loop h name self ks it ≡ some (ok t)
  unfolding current dot_loop
  Resolves-dot_loop name self t it c (last ne m) =
      dot_step name self _ [] it _ (ok t) ne c (Member-index_plain _ _ t m)
  Resolves-dot_loop name self t it c (step {s} {ks} ne m eb r) =
      dot_step name self _ ks it _ (ok s) ne c (Member-index_plain _ _ s m)
      ∙ Resolves-dot_loop name self t (some s) eb r

-- `dot_index_safe_rc_gc` finds a slot exactly when the pieces of the name between its dots lead to
-- that slot, each piece being non-empty.
pub dot_index-Resolves :
    {d : Deps} (h : Heap d) (self : ℕ) (name : Bytes) (t : ℕ)
    → (dot_index_safe_rc_gc h self name ≡ some (ok t)) ↔ Resolves h t self (split b'.' name)
unfolding dot_index_safe_rc_gc current
dot_index-Resolves h self name t = (
  λ e.
      let (k, ks, p) = split-cons b'.' name in
      subst (Resolves h t self) (sym p) (
        dot_loop-Resolves h name self k ks none self t refl
          (subst (λ z. dot_loop h name self z none ≡ some (ok t)) p e)),
  λ r. Resolves-dot_loop h name self t none refl r,
)
