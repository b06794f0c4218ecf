-- ===== src/Gc/Equal/Same.antt =====
-- When the equality of rust/src/gc_json.rs says yes: two values are the same, whatever the order of
-- an object's members.
use grip.Common.{
  ℕ, zero, suc, ◌≡◌, refl, sym, ap, ◌∙◌, Bool, true, false, ◌==◌, Option, none, some, List, [], ◌∷◌,
  arith, All, subst, if◌then◌else◌, length,
}
use mathlib.Core.Option.{some-injective, some-ne-none}
use grip.Common.Bytes.{Bytes, bytes_eq, bytes_eq_iff}
use grip.Deps.{Deps, Entries}
use grip.Gc.Heap.{InnerValue, Heap}
use grip.Gc.Equal.{
  Verdict, is, overflow, dangling, and_also, read, same_bool, equal_items, equal_member,
  equal_fields, equal_inner, equal_at,
}

-- A test that says yes exactly where the type holds.
abbrev pub Decides : Verdict → Type 0 → Type 0
Decides v P = (v ≡ is true → P) × (P → v ≡ is true)

is_true : (b : Bool) → is b ≡ is true → b ≡ true
is_true true q = refl
is_true false q = absurd cc

Decides-both :
    (u v : Verdict) (P Q : Type 0) → Decides u P → Decides v Q → Decides (and_also u v) (P × Q)
unfolding and_also
Decides-both (is true) v P Q p q = (λ r. (p.0 refl, q.0 r), λ x. q.1 (x.1))
Decides-both (is false) v P Q p q = (λ r. absurd cc, λ x. p.1 (x.0))
Decides-both overflow v P Q p q = (λ r. absurd cc, λ x. p.1 (x.0))
Decides-both dangling v P Q p q = (λ r. absurd cc, λ x. p.1 (x.0))

same_bool-Decides : (x y : Bool) → Decides (is (same_bool x y)) (x ≡ y)
unfolding same_bool
same_bool-Decides true true = (λ q. refl, λ q. refl)
same_bool-Decides true false = (λ q. absurd cc, λ q. absurd cc)
same_bool-Decides false true = (λ q. absurd cc, λ q. absurd cc)
same_bool-Decides false false = (λ q. refl, λ q. refl)

pub same_count : {m n : ℕ} → m ≡ n → (m == n) ≡ true
same_count e = ground arith

-- The elements at the same places are related, and there are as many.
unfoldable pub Items : (ℕ → ℕ → Type 0) → List ℕ → List ℕ → Type 0
Items R [] [] = Unit
Items R [] (b ∷ ys) = ⊥
Items R (a ∷ xs) [] = ⊥
Items R (a ∷ xs) (b ∷ ys) = R a b × Items R xs ys

module _ {d : Deps} (number_eq : d.Number → d.Number → Bool) (h : Heap d) where
  -- The slot leads to a cell, and the map's member of that name to a related one.
  pub record Member (R : ℕ → ℕ → Type 0) (n : d.Map) (p : Bytes × ℕ) : Type 0 where
    pub other : ℕ
    pub a : ℕ
    pub b : ℕ
    pub found : d.get n p.0 ≡ some other
    pub slot : h.slot p.1 ≡ some a
    pub other_slot : h.slot other ≡ some b
    pub related : R a b

  -- The contents are of one kind, and the same up to the relation of their children.
  unfoldable pub Contents : (ℕ → ℕ → Type 0) → InnerValue d → InnerValue d → Type 0
  unfolding Items
  Contents R InnerValue.null InnerValue.null = Unit
  Contents R (InnerValue.bool x) (InnerValue.bool y) = x ≡ y
  Contents R (InnerValue.number x) (InnerValue.number y) = number_eq x y ≡ true
  Contents R (InnerValue.string x) (InnerValue.string y) = x ≡ y
  Contents R (InnerValue.array xs) (InnerValue.array ys) = Items R xs ys
  Contents R (InnerValue.object m) (InnerValue.object n) =
      (d.len m ≡ d.len n) × All (Member R n) (d.entries m)
  Contents R _ _ = ⊥

  -- The values at two addresses are the same, and have at most so many levels.
  unfoldable pub Same : ℕ → ℕ → ℕ → Type 0
  unfolding Contents
  Same zero a b = ⊥
  Same (suc n) a b =
      (v : InnerValue d) × (w : InnerValue d) × (h.value a ≡ some v)
      × (h.value b ≡ some w)
      × Contents (Same n) v w

  module _ (eq : ℕ → ℕ → Verdict) (R : ℕ → ℕ → Type 0) where
    -- Two contents are of one kind, or differ for the code and for the relation.
    pub record Kinds (P : InnerValue d → InnerValue d → Type 0) : Type 0 where
      pub nulls : P InnerValue.null InnerValue.null
      pub bools : (x y : Bool) → P (InnerValue.bool x) (InnerValue.bool y)
      pub numbers : (x y : d.Number) → P (InnerValue.number x) (InnerValue.number y)
      pub strings : (x y : Bytes) → P (InnerValue.string x) (InnerValue.string y)
      pub arrays : (xs ys : List ℕ) → P (InnerValue.array xs) (InnerValue.array ys)
      pub objects : (m n : d.Map) → P (InnerValue.object m) (InnerValue.object n)
      pub apart :
          (v w : InnerValue d)
          → equal_inner number_eq eq h v w ≡ is false
          → (Contents R v w → ⊥)
          → P v w

    pub inner-cases :
        (P : InnerValue d → InnerValue d → Type 0) → Kinds P → (v w : InnerValue d) → P v w
    unfolding equal_inner Contents
    inner-cases P c InnerValue.null InnerValue.null = c.nulls
    inner-cases P c InnerValue.null (InnerValue.bool y) = c.apart _ _ refl (λ x. x)
    inner-cases P c InnerValue.null (InnerValue.number y) = c.apart _ _ refl (λ x. x)
    inner-cases P c InnerValue.null (InnerValue.string y) = c.apart _ _ refl (λ x. x)
    inner-cases P c InnerValue.null (InnerValue.array ys) = c.apart _ _ refl (λ x. x)
    inner-cases P c InnerValue.null (InnerValue.object n) = c.apart _ _ refl (λ x. x)
    inner-cases P c (InnerValue.bool x) InnerValue.null = c.apart _ _ refl (λ x. x)
    inner-cases P c (InnerValue.bool x) (InnerValue.bool y) = c.bools x y
    inner-cases P c (InnerValue.bool x) (InnerValue.number y) = c.apart _ _ refl (λ x. x)
    inner-cases P c (InnerValue.bool x) (InnerValue.string y) = c.apart _ _ refl (λ x. x)
    inner-cases P c (InnerValue.bool x) (InnerValue.array ys) = c.apart _ _ refl (λ x. x)
    inner-cases P c (InnerValue.bool x) (InnerValue.object n) = c.apart _ _ refl (λ x. x)
    inner-cases P c (InnerValue.number x) InnerValue.null = c.apart _ _ refl (λ x. x)
    inner-cases P c (InnerValue.number x) (InnerValue.bool y) = c.apart _ _ refl (λ x. x)
    inner-cases P c (InnerValue.number x) (InnerValue.number y) = c.numbers x y
    inner-cases P c (InnerValue.number x) (InnerValue.string y) = c.apart _ _ refl (λ x. x)
    inner-cases P c (InnerValue.number x) (InnerValue.array ys) = c.apart _ _ refl (λ x. x)
    inner-cases P c (InnerValue.number x) (InnerValue.object n) = c.apart _ _ refl (λ x. x)
    inner-cases P c (InnerValue.string x) InnerValue.null = c.apart _ _ refl (λ x. x)
    inner-cases P c (InnerValue.string x) (InnerValue.bool y) = c.apart _ _ refl (λ x. x)
    inner-cases P c (InnerValue.string x) (InnerValue.number y) = c.apart _ _ refl (λ x. x)
    inner-cases P c (InnerValue.string x) (InnerValue.string y) = c.strings x y
    inner-cases P c (InnerValue.string x) (InnerValue.array ys) = c.apart _ _ refl (λ x. x)
    inner-cases P c (InnerValue.string x) (InnerValue.object n) = c.apart _ _ refl (λ x. x)
    inner-cases P c (InnerValue.array xs) InnerValue.null = c.apart _ _ refl (λ x. x)
    inner-cases P c (InnerValue.array xs) (InnerValue.bool y) = c.apart _ _ refl (λ x. x)
    inner-cases P c (InnerValue.array xs) (InnerValue.number y) = c.apart _ _ refl (λ x. x)
    inner-cases P c (InnerValue.array xs) (InnerValue.string y) = c.apart _ _ refl (λ x. x)
    inner-cases P c (InnerValue.array xs) (InnerValue.array ys) = c.arrays xs ys
    inner-cases P c (InnerValue.array xs) (InnerValue.object n) = c.apart _ _ refl (λ x. x)
    inner-cases P c (InnerValue.object m) InnerValue.null = c.apart _ _ refl (λ x. x)
    inner-cases P c (InnerValue.object m) (InnerValue.bool y) = c.apart _ _ refl (λ x. x)
    inner-cases P c (InnerValue.object m) (InnerValue.number y) = c.apart _ _ refl (λ x. x)
    inner-cases P c (InnerValue.object m) (InnerValue.string y) = c.apart _ _ refl (λ x. x)
    inner-cases P c (InnerValue.object m) (InnerValue.array ys) = c.apart _ _ refl (λ x. x)
    inner-cases P c (InnerValue.object m) (InnerValue.object n) = c.objects m n

  module _ (eq : ℕ → ℕ → Verdict) (R : ℕ → ℕ → Type 0)
      (decides : (a b : ℕ) → Decides (eq a b) (R a b)) where
    items-length : (xs ys : List ℕ) → Items R xs ys → length xs ≡ length ys
    unfolding Items
    items-length [] [] x = refl
    items-length [] (b ∷ ys) x = absurd x
    items-length (a ∷ xs) [] x = absurd x
    items-length (a ∷ xs) (b ∷ ys) x = omega (arith, items-length xs ys x.1)

    items-Decides :
        (xs ys : List ℕ) → length xs ≡ length ys → Decides (equal_items eq xs ys) (Items R xs ys)
    unfolding equal_items Items
    items-Decides [] [] l = (λ q. tt, λ x. refl)
    items-Decides [] (b ∷ ys) l = absurd (omega arith)
    items-Decides (a ∷ xs) [] l = absurd (omega arith)
    items-Decides (a ∷ xs) (b ∷ ys) l =
        Decides-both (eq a b) (equal_items eq xs ys) (R a b) (Items R xs ys) (decides a b)
          (items-Decides xs ys (omega arith))

    equal_member-Decides :
        (n : d.Map) (k : Bytes) (s : ℕ)
        → Decides (equal_member eq h s (d.get n k)) (Member R n (k, s))
    unfolding equal_member read
    equal_member-Decides n k s = named (d.get n k) refl
      where
        cells :
            (t : ℕ) (u w : Option ℕ)
            → d.get n k ≡ some t
            → h.slot s ≡ u
            → h.slot t ≡ w
            → Decides (read u (λ a. read w (λ b. eq a b))) (Member R n (k, s))
        cells t none w e p q = (λ r. absurd cc, λ x. absurd (some-ne-none x.a (sym x.slot ∙ p)))
        cells t (some a) none e p q = (
          λ r. absurd cc,
          λ x. absurd (
              some-ne-none x.b
                (sym x.other_slot ∙ ap h.slot (some-injective _ _ (sym x.found ∙ e)) ∙ q)),
        )
        cells t (some a) (some b) e p q = (
          λ r. record {
            other = t;
            a = a;
            b = b;
            found = e;
            slot = p;
            other_slot = q;
            related = (decides a b).0 r;
          },
          λ x. (decides a b).1 (
              subst (λ z. R z b) (some-injective _ _ (sym x.slot ∙ p))
                (subst (R x.a)
                  (some-injective _ _
                    (sym x.other_slot ∙ ap h.slot (some-injective _ _ (sym x.found ∙ e)) ∙ q))
                  x.related)),
        )

        named : (o : Option ℕ) → d.get n k ≡ o → Decides (equal_member eq h s o) (Member R n (k, s))
        named none e = (λ r. absurd cc, λ x. absurd (some-ne-none x.other (sym x.found ∙ e)))
        named (some t) e = cells t (h.slot s) (h.slot t) e refl refl

    fields-Decides :
        (n : d.Map) (es : Entries) → Decides (equal_fields eq h n es) (All (Member R n) es)
    unfolding equal_fields
    fields-Decides n [] = (λ q. tt, λ x. refl)
    fields-Decides n ((k, s) ∷ es) =
        Decides-both (equal_member eq h s (d.get n k)) (equal_fields eq h n es) (Member R n (k, s))
          (All (Member R n) es) (equal_member-Decides n k s) (fields-Decides n es)

    -- A test that comes first.
    guard-Decides :
        (t : Bool) (v : Verdict) (P : Type 0)
        → (t ≡ true → Decides v P)
        → (P → t ≡ true)
        → Decides (if t then v else is false) P
    guard-Decides true v P then_it must = then_it refl
    guard-Decides false v P then_it must = (λ q. absurd cc, λ x. absurd (cc (must x)))

    inner-Decides : (v w : InnerValue d) → Decides (equal_inner number_eq eq h v w) (Contents R v w)
    unfolding equal_inner Contents
    inner-Decides v w =
        inner-cases eq R (λ x y. Decides (equal_inner number_eq eq h x y) (Contents R x y))
          (record {
            nulls = (λ q. tt, λ x. refl);
            bools = same_bool-Decides;
            numbers = λ x y. (λ q. is_true (number_eq x y) q, λ q. ap is q);
            strings = λ x y. (
              λ q. (bytes_eq_iff x y).0 (is_true (bytes_eq x y) q),
              λ q. ap is ((bytes_eq_iff x y).1 q),
            );
            arrays = λ xs ys.
                guard-Decides (length xs == length ys) (equal_items eq xs ys) (Items R xs ys)
                  (λ l. items-Decides xs ys (ground arith))
                  (λ x. same_count (items-length xs ys x));
            objects = λ m n.
                guard-Decides (d.len m == d.len n) (equal_fields eq h n (d.entries m)) _
                  (λ l. (
                    λ q. (ground arith, (fields-Decides n (d.entries m)).0 q),
                    λ x. (fields-Decides n (d.entries m)).1 (x.1),
                  ))
                  (λ x. same_count (x.0));
            apart = λ v w q x. (λ r. absurd cc, λ c. absurd (x c));
          })
          v w

  -- With room for `depth` nested comparisons, the comparison says yes exactly at the same values.
  pub at-Decides : (depth a b : ℕ) → Decides (equal_at number_eq depth h a b) (Same depth a b)
  unfolding equal_at Same
  at-Decides zero a b = (λ q. absurd cc, λ x. absurd x)
  at-Decides (suc depth) a b = go (at-Decides depth) (h.value a) (h.value b) refl refl
    where
      go :
          ((x y : ℕ) → Decides (equal_at number_eq depth h x y) (Same depth x y))
          → (u w : Option (InnerValue d)) → h.value a ≡ u
          → h.value b ≡ w
          → Decides
              (read u (λ x. read w (λ y. equal_inner number_eq (equal_at number_eq depth h) h x y)))
              (Same (suc depth) a b)
      go ih none w p q = (λ r. absurd cc, λ (x, y, f, g, c). absurd (some-ne-none x (sym f ∙ p)))
      go ih (some x) none p q =
          (λ r. absurd cc, λ (z, y, f, g, c). absurd (some-ne-none y (sym g ∙ q)))
      go ih (some x) (some y) p q =
          let both = inner-Decides (equal_at number_eq depth h) (Same depth) ih x y in
          (
            λ r. (x, y, p, q, both.0 r),
            λ (x', y', f, g, c). both.1 (
                subst (λ z. Contents (Same depth) z y) (some-injective _ _ (sym f ∙ p))
                  (subst (λ z. Contents (Same depth) x' z) (some-injective _ _ (sym g ∙ q)) c)),
          )
