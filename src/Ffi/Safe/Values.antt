-- ===== src/Ffi/Safe/Values.antt =====
-- The functions of rust/src/ffi/mod.rs on one JSON handle, and the copies into C buffers, keep a
-- sound world.
use grip.Common.{ℕ, ◌+◌, ◌≤◌, ◌<◌, ◌≡◌, ap, ◌∙◌, Bool, some, false, arith, ◌==◌, length}
use grip.Common.Int.{ℤ, pos}
use grip.Common.Bytes.{Bytes}
use grip.Errors.{Message}
use grip.Env.{Env}
use grip.CellMap.{insert_with_unique_id, remove_with_id}
use grip.Gc.Heap.{InnerValue}
use grip.Gc.Value.{Value}
use grip.Gc.Total.{into-total, deep_clone-total}
use grip.Strlcpy.Total.{strlcpy-total}
use grip.Ffi.World.{World, pure}
use grip.Ffi.Ext.{chain_err, copy_unsafe_string, insert_json}
use grip.Ffi.Reads.{copy_string}
use grip.Ffi.Values.{
  serialize_to_string, grip_destroy_json_value, grip_json_get_type, init_json,
  grip_json_init_string, grip_json_get_string, grip_json_get_number, grip_json_get_float,
  grip_json_get_bool, grip_json_deep_copy, serialized, grip_json_serial_size,
  grip_json_serial_to_string, insert_body, grip_body_from_json,
}
use grip.Ffi.Arrays.{grip_json_array_get_string}
use grip.Ffi.Safe.{
  Onward-trans, Sound, Onward, Fine, Any, Fine-pure, Fine-bind, Fine-map, Ends, Ends-bind,
  Fine-Ends, Ends-returned,
}
use grip.Ffi.Safe.Macros.{
  Floating, Floating-Onward, Readable, Readable-Onward, get_module-Fine, try_and_log_ffi-Fine,
  unconditionally-Fine, try_str_from_ptr-Fine, try_as_usize-Fine, unwrap-Fine, handle-Fine,
  borrow_inner-Fine, value-Fine, array_value-Fine, with_heap-Fine, gc_json-Fine, insert_json-Fine,
  remove_json-Fine, Owned-Onward, put_module-Fine,
}
use grip.Ffi.Safe.Arrays.{
  read_number-Fine, read_bool-Fine, read_float-Fine, write_float-Fine, exported-Ends,
}

module _ {e : Env} where
  -- A buffer with room for `size` bytes and a NUL.
  pub record Writable (p : ℕ) (size : ℤ) (w : World e) : Type 0 where
    pub bytes : Bytes
    pub nonzero : (p == 0) ≡ false
    pub memory : w.memory p ≡ some bytes
    pub room : (n : ℕ) → size ≡ pos n → n + 1 ≤ length bytes

  pub Writable-Onward :
      {w v : World e} {p : ℕ} {size : ℤ} → Onward w v → Writable p size w → Writable p size v
  Writable-Onward {p} g r = record {
    bytes = r.bytes;
    nonzero = r.nonzero;
    memory = ap (λ f. f p) g.memory ∙ r.memory;
    room = r.room;
  }

  pub copy_unsafe_string-Ends :
      {w : World e} {dest : ℕ} {size : ℤ} (source : Bytes)
      → Sound w
      → Writable dest size w
      → Ends (copy_unsafe_string dest source size w)
  unfolding copy_unsafe_string
  copy_unsafe_string-Ends {dest} {size} source s r =
      Ends-bind (try_as_usize-Fine size s) λ n v sv g q.
        let k = Writable-Onward g r in
        let (len, buffer, c) = strlcpy-total source k.bytes (n + 1) (k.room n q) in
        rw (copy_unsafe_string, k.nonzero)
          (rw k.memory (rw c (Ends.goes (record { heap = sv.heap; handles = sv.handles }))))

  pub copy_string-Ends :
      {w : World e} {dest : ℕ} {size : ℤ} (v : InnerValue e.deps)
      → Sound w
      → Writable dest size w
      → Ends (copy_string dest size v w)
  unfolding copy_string
  copy_string-Ends (InnerValue.string t) s r = copy_unsafe_string-Ends t s r
  copy_string-Ends InnerValue.null s r = Fine-Ends {Q = Any} (unconditionally-Fine _ s)
  copy_string-Ends (InnerValue.bool b) s r = Fine-Ends {Q = Any} (unconditionally-Fine _ s)
  copy_string-Ends (InnerValue.number n) s r = Fine-Ends {Q = Any} (unconditionally-Fine _ s)
  copy_string-Ends (InnerValue.array cells) s r = Fine-Ends {Q = Any} (unconditionally-Fine _ s)
  copy_string-Ends (InnerValue.object m) s r = Fine-Ends {Q = Any} (unconditionally-Fine _ s)

  -- One function after the other, in the order of the source.
  pub grip_destroy_json_value-Ends :
      (w : World e) (value : ℤ) → Sound w → Ends (grip_destroy_json_value value w)
  unfolding grip_destroy_json_value
  grip_destroy_json_value-Ends w value s = exported-Ends {Q = Any} (
      Fine-bind (get_module-Fine s) λ m v sv g q.
        Fine-bind {f = λ _. _} (remove_json-Fine m value sv q) λ _ u su h r.
          Fine-bind {f = λ _. pure (pos 1)}
            (try_and_log_ffi-Fine
              (chain_err (remove_with_id m.json_handles value).0 (Message.invalid_json_value value))
              su)
            λ _ t st k z. Fine-pure st tt)

  pub grip_json_get_type-Ends :
      (w : World e) (value : ℤ) → Sound w → Ends (grip_json_get_type value w)
  unfolding grip_json_get_type
  grip_json_get_type-Ends w value s =
      exported-Ends {Q = Any} (Fine-bind (value-Fine value s) λ c v sv g r. Fine-pure sv tt)

  pub init_json-Ends : (w : World e) (x : Value e.deps) → Sound w → Ends (init_json x w)
  unfolding init_json
  init_json-Ends w x s = exported-Ends (
      Fine-bind (get_module-Fine s)
        λ m v sv g q. Fine-bind (gc_json-Fine x sv) λ a u su h l. insert_json-Fine a su l)

  pub grip_json_init_string-Ends :
      (w : World e) (string : ℕ)
      → Sound w
      → Readable string w
      → Ends (grip_json_init_string string w)
  unfolding grip_json_init_string
  grip_json_init_string-Ends w string s r = Ends-returned (
      Ends-bind (get_module-Fine s) λ m v sv g q.
        Ends-bind (try_str_from_ptr-Fine Message.not_utf8 sv (Readable-Onward g r))
          λ t u su h z. init_json-Ends u (Value.string t) su)

  pub grip_json_get_string-Ends :
      (w : World e) (value : ℤ) (buffer : ℕ) (size : ℤ)
      → Sound w
      → Writable buffer size w
      → Ends (grip_json_get_string value buffer size w)
  unfolding grip_json_get_string
  grip_json_get_string-Ends w value buffer size s r =
      Ends-returned
        (Ends-bind (value-Fine value s) λ c v sv g k. copy_string-Ends c sv (Writable-Onward g r))

  pub grip_json_array_get_string-Ends :
      (w : World e) (array index : ℤ) (buffer : ℕ) (size : ℤ)
      → Sound w
      → Writable buffer size w
      → Ends (grip_json_array_get_string array index buffer size w)
  unfolding grip_json_array_get_string
  grip_json_array_get_string-Ends w array index buffer size s r = Ends-returned (
      Ends-bind (array_value-Fine array index s) λ a v sv g l.
        Ends-bind (borrow_inner-Fine sv l)
          λ c u su h k. copy_string-Ends c su (Writable-Onward h (Writable-Onward g r)))

  pub grip_json_get_number-Ends :
      (w : World e) (value : ℤ) → Sound w → Ends (grip_json_get_number value w)
  unfolding grip_json_get_number
  grip_json_get_number-Ends w value s =
      exported-Ends (Fine-bind (value-Fine value s) λ c v sv g r. read_number-Fine c sv)

  pub grip_json_get_float-Ends :
      (w : World e) (value : ℤ) (ret : ℕ)
      → Sound w
      → Floating ret w
      → Ends (grip_json_get_float value ret w)
  unfolding grip_json_get_float
  grip_json_get_float-Ends w value ret s f = exported-Ends (
      Fine-bind {f = λ _. _} (write_float-Fine e.float_zero s f) λ _ v sv g q.
        Fine-bind (value-Fine value sv)
          λ c u su h r. read_float-Fine c su (Floating-Onward (Onward-trans g h) f))

  pub grip_json_get_bool-Ends :
      (w : World e) (value : ℤ) → Sound w → Ends (grip_json_get_bool value w)
  unfolding grip_json_get_bool
  grip_json_get_bool-Ends w value s =
      exported-Ends
        (Fine-bind (value-Fine value s) λ c v sv g r. read_bool-Fine Message.not_bool c sv)

  -- The copies of a value that follow references: they meet no cell that was never made.
  pub grip_json_deep_copy-Ends :
      (w : World e) (object limit : ℤ) → Sound w → Ends (grip_json_deep_copy object limit w)
  unfolding grip_json_deep_copy
  grip_json_deep_copy-Ends w object limit s = exported-Ends {Q = Any} (
      Fine-bind (handle-Fine object s) λ a v sv g l.
        Fine-bind (try_as_usize-Fine limit sv) λ n u su h q.
          let (b, heap, c, made) =
            deep_clone-total a n u.heap su.heap (omega (arith, l, h.heap.value)) in
          rw c (
            Fine-bind {f = λ _. insert_json b}
              (with_heap-Fine {Q = λ _ x. b < x.heap.next_value} {a = tt} su made.closed made.grown
                made.below)
              λ _ t st k z. insert_json-Fine b st z))

  pub serialized-Fine :
      {w : World e} (value : ℤ) (pretty null_byte : Bool) (limit : ℤ)
      → Sound w
      → Fine w Any (serialized value pretty null_byte limit w)
  unfolding serialized
  serialized-Fine value pretty null_byte limit s = Fine-bind (handle-Fine value s) λ a v sv g l.
      Fine-bind (try_as_usize-Fine limit sv) λ n u su h q.
        let (x, c) = into-total u.heap su.heap a n (omega (arith, l, h.heap.value)) in
        rw c (
          Fine-map (try_and_log_ffi-Fine (serialize_to_string e x pretty null_byte) su)
            λ t z sz k p. tt)

  pub grip_json_serial_size-Ends :
      (w : World e) (value : ℤ) (pretty null_byte : Bool) (limit : ℤ)
      → Sound w
      → Ends (grip_json_serial_size value pretty null_byte limit w)
  unfolding grip_json_serial_size
  grip_json_serial_size-Ends w value pretty null_byte limit s =
      exported-Ends {Q = Any}
        (Fine-bind (serialized-Fine value pretty null_byte limit s) λ t v sv g q. Fine-pure sv tt)

  pub grip_json_serial_to_string-Ends :
      (w : World e) (value : ℤ) (pretty : Bool) (buffer : ℕ) (maxlen limit : ℤ)
      → Sound w
      → Writable buffer maxlen w
      → Ends (grip_json_serial_to_string value pretty buffer maxlen limit w)
  unfolding grip_json_serial_to_string
  grip_json_serial_to_string-Ends w value pretty buffer maxlen limit s r = Ends-returned (
      Ends-bind (serialized-Fine value pretty false limit s)
        λ t v sv g q. copy_unsafe_string-Ends t sv (Writable-Onward g r))

  pub insert_body-Fine : {w : World e} (t : Bytes) → Sound w → Fine w Any (insert_body t w)
  unfolding insert_body
  insert_body-Fine t s = Fine-bind (get_module-Fine s) λ m u su h r.
      Fine-bind (unwrap-Fine (insert_with_unique_id e.isize_max m.bodies_handles t) su)
        λ p x sx k z.
          Fine-bind {f = λ _. pure p.0}
            (put_module-Fine (record m { bodies_handles = p.1 }) sx
              (Owned-Onward m k (su.handles m r)))
            λ _ y sy l o. Fine-pure sy tt

  pub grip_body_from_json-Ends :
      (w : World e) (value : ℤ) (pretty : Bool) (limit : ℤ)
      → Sound w
      → Ends (grip_body_from_json value pretty limit w)
  unfolding grip_body_from_json
  grip_body_from_json-Ends w value pretty limit s =
      exported-Ends {Q = Any}
        (Fine-bind (serialized-Fine value pretty false limit s) λ t v sv g q. insert_body-Fine t sv)
