-- ===== src/Ffi/Safe/Objects.antt =====
-- The functions of rust/src/ffi/mod.rs on JSON objects keep a sound world.
use grip.Common.{ℕ, inl, inr, Bool-cases, Bool, some, arith}
use grip.Common.Int.{ℤ}
use grip.Errors.{ok, err, Message}
use grip.Env.{Env}
use grip.Gc.Heap.{InnerValue}
use grip.Gc.Closed.{write_slot-Closed, write_slot-Grown}
use grip.Ffi.World.{World, M}
use grip.Ffi.Index.{Found}
use grip.Ffi.Objects.{
  is_type, try_found, try_to_get_json_object_value_rc_gc,
  try_to_get_json_object_value_or_insert_rc_gc, try_to_get_json_object_value_gc,
  try_to_get_json_object_value, grip_json_object_get_value, grip_json_object_get_string,
  grip_json_object_get_number, grip_json_object_get_float, grip_json_object_get_bool,
  grip_json_object_has_value, set_member,
}
use grip.Ffi.Safe.{
  Sound, Onward-refl, Fine, Any, Fine-pure, Fine-bind, Ends, Ends-bind, Ends-returned,
}
use grip.Ffi.Safe.Macros.{
  Floating, Floating-Onward, Cell, Slot, Content, Readable, Readable-Onward, unconditionally-Fine,
  try_str_from_ptr-Fine, handle-Fine, borrow_inner-Fine, borrow_slot-Fine, with_heap-Fine,
  insert_json-Fine,
}
use grip.Ffi.Safe.Arrays.{Maker, read_number-Fine, read_bool-Fine, read_float-Fine, exported-Ends}
use grip.Ffi.Safe.Values.{Writable, Writable-Onward, copy_string-Ends}
use grip.Ffi.Safe.Index.{Below, index_selective-Below, index_selective_or_insert-Inserted}

module _ {e : Env} where
  try_found-Fine :
      {w : World e} (f : Found) → Sound w → Below w.heap f → Fine w Slot (try_found f w)
  unfolding try_found
  try_found-Fine (ok s) sw l = Fine-pure sw l
  try_found-Fine (err m) s l = unconditionally-Fine m s

  located-Fine :
      {w : World e} (object : ℤ) (name : ℕ) (dot : Bool)
      → Sound w
      → Readable name w
      → Fine w Slot (try_to_get_json_object_value_rc_gc object name dot w)
  unfolding try_to_get_json_object_value_rc_gc
  located-Fine object name dot s r = Fine-bind (handle-Fine object s) λ a v sv g l.
      Fine-bind (try_str_from_ptr-Fine Message.bad_pointer sv (Readable-Onward g r)) λ t u su h q.
        let (f, c, b) =
          index_selective-Below u.heap a t dot su.heap (omega (arith, l, h.heap.value)) in
        rw c (try_found-Fine f su b)

  located_or_made-Fine :
      {w : World e} (object : ℤ) (name : ℕ) (dot : Bool)
      → Sound w
      → Readable name w
      → Fine w Slot (try_to_get_json_object_value_or_insert_rc_gc object name dot w)
  unfolding try_to_get_json_object_value_or_insert_rc_gc
  located_or_made-Fine object name dot s r = Fine-bind (handle-Fine object s) λ a v sv g l.
      Fine-bind (try_str_from_ptr-Fine Message.bad_pointer sv (Readable-Onward g r)) λ t u su h q.
        let (f, heap, c, i) =
          index_selective_or_insert-Inserted u.heap a t dot (some InnerValue.null) su.heap tt
            (omega (arith, l, h.heap.value)) in
        rw c (
          Fine-bind {f = λ _. try_found f}
            (with_heap-Fine {Q = λ _ x. Below x.heap f} {a = tt} su i.closed i.grown i.below)
            λ _ x sx k b. try_found-Fine f sx b)

  member-Fine :
      {w : World e} (object : ℤ) (name : ℕ) (dot : Bool)
      → Sound w
      → Readable name w
      → Fine w Cell (try_to_get_json_object_value_gc object name dot w)
  unfolding try_to_get_json_object_value_gc
  member-Fine object name dot s r =
      Fine-bind (located-Fine object name dot s r) λ t v sv g l. borrow_slot-Fine sv l

  member_value-Fine :
      {w : World e} (object : ℤ) (name : ℕ) (dot : Bool)
      → Sound w
      → Readable name w
      → Fine w Content (try_to_get_json_object_value object name dot w)
  unfolding try_to_get_json_object_value
  member_value-Fine object name dot s r =
      Fine-bind (member-Fine object name dot s r) λ t v sv g l. borrow_inner-Fine sv l

  pub grip_json_object_get_value-Ends :
      (w : World e) (object : ℤ) (name : ℕ) (dot : Bool)
      → Sound w
      → Readable name w
      → Ends (grip_json_object_get_value object name dot w)
  unfolding grip_json_object_get_value
  grip_json_object_get_value-Ends w object name dot s r =
      exported-Ends
        (Fine-bind (member-Fine object name dot s r) λ a v sv g l. insert_json-Fine a sv l)

  pub grip_json_object_get_string-Ends :
      (w : World e) (object : ℤ) (name buffer : ℕ) (maxlen : ℤ) (dot : Bool)
      → Sound w
      → Readable name w
      → Writable buffer maxlen w
      → Ends (grip_json_object_get_string object name buffer maxlen dot w)
  unfolding grip_json_object_get_string
  grip_json_object_get_string-Ends w object name buffer maxlen dot s r b = Ends-returned (
      Ends-bind (member_value-Fine object name dot s r)
        λ c v sv g k. copy_string-Ends c sv (Writable-Onward g b))

  pub grip_json_object_get_number-Ends :
      (w : World e) (object : ℤ) (name : ℕ) (dot : Bool)
      → Sound w
      → Readable name w
      → Ends (grip_json_object_get_number object name dot w)
  unfolding grip_json_object_get_number
  grip_json_object_get_number-Ends w object name dot s r =
      exported-Ends
        (Fine-bind (member_value-Fine object name dot s r) λ c v sv g k. read_number-Fine c sv)

  pub grip_json_object_get_float-Ends :
      (w : World e) (object : ℤ) (name : ℕ) (dot : Bool) (ret : ℕ)
      → Sound w
      → Readable name w
      → Floating ret w
      → Ends (grip_json_object_get_float object name dot ret w)
  unfolding grip_json_object_get_float
  grip_json_object_get_float-Ends w object name dot ret s r f = exported-Ends (
      Fine-bind (member_value-Fine object name dot s r)
        λ c v sv g k. read_float-Fine c sv (Floating-Onward g f))

  pub grip_json_object_get_bool-Ends :
      (w : World e) (object : ℤ) (name : ℕ) (dot : Bool)
      → Sound w
      → Readable name w
      → Ends (grip_json_object_get_bool object name dot w)
  unfolding grip_json_object_get_bool
  grip_json_object_get_bool-Ends w object name dot s r = exported-Ends (
      Fine-bind (member_value-Fine object name dot s r)
        λ c v sv g k. read_bool-Fine Message.not_bool c sv)

  pub grip_json_object_has_value-Ends :
      (w : World e) (object : ℤ) (name : ℕ) (json_type : ℤ) (dot : Bool)
      → Sound w
      → Readable name w
      → Ends (grip_json_object_has_value object name json_type dot w)
  unfolding grip_json_object_has_value
  grip_json_object_has_value-Ends w object name json_type dot s r = exported-Ends {Q = Any} (
      Fine-bind (member_value-Fine object name dot s r) λ c v sv g k.
        elim (Bool-cases (is_type json_type)) [
          | inl known ↦ rw known (Fine-pure sv tt)
          | inr other ↦ rw other (
              Fine-bind {f = λ _. _} (unconditionally-Fine {Q = Any} _ sv)
                λ _ u su h q. Fine-pure su tt)
        ])

  pub set_member-Fine :
      {w : World e} (object : ℤ) (name : ℕ) (dot : Bool) (new : M e ℕ)
      → Sound w
      → Readable name w
      → Maker w new
      → Fine w Any (set_member object name dot new w)
  unfolding set_member
  set_member-Fine {w} object name dot new s r maker =
      Fine-bind (maker w s (Onward-refl w)) λ b v sv g l.
        Fine-bind (located_or_made-Fine object name dot sv (Readable-Onward g r)) λ t u su h k.
          with_heap-Fine su (write_slot-Closed t b u.heap su.heap (omega (arith, l, h.heap.value)))
            (write_slot-Grown t b u.heap) tt
