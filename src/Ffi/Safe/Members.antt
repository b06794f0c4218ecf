-- ===== src/Ffi/Safe/Members.antt =====
-- The functions of rust/src/ffi/mod.rs on the members of an object as a whole keep a sound world.
use grip.Common.{ℕ, ◌<◌, ◌≡◌, refl, sym, subst, ◌∙◌, some, List, [], ◌∷◌, arith, All, All_elem}
use grip.Common.Int.{ℤ, pos}
use grip.Common.Bytes.{Bytes}
use grip.Errors.{Message}
use grip.Env.{Env}
use grip.Deps.{Deps, Entries}
use grip.Gc.Heap.{InnerValue, Heap}
use grip.Gc.Closed.{Refers, Closed, Refers-grown}
use grip.Ffi.World.{World, pure}
use grip.Ffi.Ext.{chain_err}
use grip.Ffi.Reads.{type_id}
use grip.Ffi.Objects.{
  discriminants, as_object, grip_json_object_get_count, try_get_index, grip_json_object_get_name,
  grip_json_object_get_value_at, grip_json_object_remove, grip_json_object_clear,
  grip_json_validate,
}
use grip.Ffi.Safe.{
  Sound, Onward-trans, Fine, Any, Fine-pure, Fine-bind, Fine-map, Ends, Ends-bind, Ends-returned,
}
use grip.Ffi.Safe.Macros.{
  Content, Readable, Readable-Onward, try_and_log_ffi-Fine, unconditionally-Fine,
  try_str_from_ptr-Fine, try_as_usize-Fine, chain_err-ok, handle-Fine, borrow_inner-Fine,
  borrow_slot-Fine, value-Fine, write_inner-Fine, insert_json-Fine,
}
use grip.Ffi.Safe.Arrays.{exported-Ends}
use grip.Ffi.Safe.Values.{Writable, Writable-Onward, copy_unsafe_string-Ends}

-- What is known of the members of an object.
abbrev Fields : {e : Env} → e.Map → World e → Type 0
Fields {e} m w = Refers w.heap (InnerValue.object m)

discriminants-total :
    {d : Deps} (h : Heap d) (es : Entries)
    → Closed h
    → All (λ (p : Bytes × ℕ). p.1 < h.next_slot) es
    → (xs : List (Bytes × ℕ)) × (discriminants h es ≡ some xs)
unfolding discriminants
discriminants-total h [] c l = (_, refl)
discriminants-total h ((k, s) ∷ es) c l =
    let (a, ea, la) = c.slot s l.0 in
    let (v, ev, rv) = c.value a la in
    let (xs, e) = discriminants-total h es c l.1 in ((k, type_id v) ∷ xs, rw ea (rw ev (rw e refl)))

module _ {e : Env} where
  as_object-Fine :
      {w : World e} (m : Message) (v : InnerValue e.deps)
      → Sound w
      → Content v w
      → Fine w Fields (as_object m v w)
  unfolding as_object
  as_object-Fine m (InnerValue.object o) s r = Fine-pure s r
  as_object-Fine m InnerValue.null s r = unconditionally-Fine _ s
  as_object-Fine m (InnerValue.bool b) s r = unconditionally-Fine _ s
  as_object-Fine m (InnerValue.number n) s r = unconditionally-Fine _ s
  as_object-Fine m (InnerValue.string t) s r = unconditionally-Fine _ s
  as_object-Fine m (InnerValue.array cells) s r = unconditionally-Fine _ s

  try_get_index-Fine :
      {w : World e} (m : e.Map) (index : ℤ)
      → Sound w
      → Fields m w
      → Fine w (λ p v. p.1 < v.heap.next_slot) (try_get_index m index w)
  unfolding try_get_index
  try_get_index-Fine {w} m index s r = Fine-bind (try_as_usize-Fine index s) λ i v sv g q.
      Fine-map (try_and_log_ffi-Fine (chain_err (e.get_index m i) Message.index_not_found) sv)
        λ p u su h z.
          let found = sym (e.get_index-entries m i) ∙ chain_err-ok (e.get_index m i) _ p z in
          omega (
            arith,
            All_elem (λ (p : Bytes × ℕ). p.1 < w.heap.next_slot) (e.entries m) i p r found,
            g.heap.slot,
            h.heap.slot,
          )

  pub grip_json_object_get_count-Ends :
      (w : World e) (object : ℤ) → Sound w → Ends (grip_json_object_get_count object w)
  unfolding grip_json_object_get_count
  grip_json_object_get_count-Ends w object s = exported-Ends {Q = Any} (
      Fine-bind (value-Fine object s) λ c v sv g r.
        Fine-bind (as_object-Fine Message.not_object c sv r) λ m u su h k. Fine-pure su tt)

  pub grip_json_object_get_name-Ends :
      (w : World e) (object index : ℤ) (buffer : ℕ) (maxlen : ℤ)
      → Sound w
      → Writable buffer maxlen w
      → Ends (grip_json_object_get_name object index buffer maxlen w)
  unfolding grip_json_object_get_name
  grip_json_object_get_name-Ends w object index buffer maxlen s b = Ends-returned (
      Ends-bind (value-Fine object s) λ c v sv g r.
        Ends-bind (as_object-Fine Message.not_object c sv r) λ m u su h k.
          Ends-bind (try_get_index-Fine m index su k) λ p x sx l z.
            copy_unsafe_string-Ends p.0 sx (Writable-Onward (Onward-trans g (Onward-trans h l)) b))

  pub grip_json_object_get_value_at-Ends :
      (w : World e) (object index : ℤ)
      → Sound w
      → Ends (grip_json_object_get_value_at object index w)
  unfolding grip_json_object_get_value_at
  grip_json_object_get_value_at-Ends w object index s = exported-Ends (
      Fine-bind (value-Fine object s) λ c v sv g r.
        Fine-bind (as_object-Fine Message.not_object c sv r) λ m u su h k.
          Fine-bind (try_get_index-Fine m index su k)
            λ p x sx l z. Fine-bind (borrow_slot-Fine sx z) λ a y sy n q. insert_json-Fine a sy q)

  pub grip_json_object_remove-Ends :
      (w : World e) (object : ℤ) (name : ℕ)
      → Sound w
      → Readable name w
      → Ends (grip_json_object_remove object name w)
  unfolding grip_json_object_remove
  grip_json_object_remove-Ends w object name s r = exported-Ends {Q = Any} (
      Fine-bind (handle-Fine object s) λ a v sv g l.
        Fine-bind (borrow_inner-Fine sv l) λ c u su h k.
          Fine-bind (as_object-Fine Message.not_object c su k) λ m x sx i q.
            Fine-bind
              (try_str_from_ptr-Fine Message.not_utf8 sx
                (Readable-Onward (Onward-trans g (Onward-trans h i)) r))
              λ t y sy j z.
                Fine-bind {f = λ _. pure (pos 1)}
                  (write_inner-Fine a (InnerValue.object (e.remove m t)) sy (
                    e.remove-All (λ p. p.1 < y.heap.next_slot) m t
                      (Refers-grown x.heap y.heap (InnerValue.object m) j.heap q)))
                  λ _ o so n p. Fine-pure so tt)

  pub grip_json_object_clear-Ends :
      (w : World e) (object : ℤ) → Sound w → Ends (grip_json_object_clear object w)
  unfolding grip_json_object_clear
  grip_json_object_clear-Ends w object s = exported-Ends {Q = Any} (
      Fine-bind (handle-Fine object s) λ a v sv g l.
        Fine-bind (borrow_inner-Fine sv l) λ c u su h k.
          Fine-bind (as_object-Fine Message.not_object c su k) λ m x sx i q.
            Fine-bind {f = λ _. pure (pos 1)}
              (write_inner-Fine a (InnerValue.object (e.clear m)) sx (
                subst (All (λ (p : Bytes × ℕ). p.1 < x.heap.next_slot)) (sym (e.entries-clear m))
                  tt))
              λ _ o so n p. Fine-pure so tt)

  pub grip_json_validate-Ends :
      (w : World e) (schema value : ℤ) → Sound w → Ends (grip_json_validate schema value w)
  unfolding grip_json_validate
  grip_json_validate-Ends w schema value s = exported-Ends {Q = Any} (
      Fine-bind (value-Fine schema s) λ c v sv g r.
        Fine-bind (as_object-Fine Message.schema_not_object c sv r) λ m u su h k.
          Fine-bind (value-Fine value su) λ c' x sx i q.
            Fine-bind (as_object-Fine Message.schema_not_object c' sx q) λ n y sy j z.
              let (xs, ex) =
                discriminants-total y.heap (e.entries m) sy.heap
                  (Refers-grown u.heap y.heap (InnerValue.object m) (Onward-trans i j).heap k) in
              let (ys, ey) = discriminants-total y.heap (e.entries n) sy.heap z in
              rw ex (rw ey (Fine-pure sy tt)))
