-- ===== src/Ffi/Objects.antt =====
-- rust/src/ffi/mod.rs: `grip_json_object_*` and `grip_json_validate`, with the object macros of ext.rs.
use grip.Common.{
  ℕ, Bool, true, false, ◌&&◌, ◌||◌, Option, some, List, [], ◌∷◌, if◌then◌else◌, ◌==◌, leb,
}
use grip.Common.Int.{ℤ, pos, negsuc, int_eq, as_isize}
use grip.Common.Bytes.{Bytes, bytes_eq}
use grip.Common.Opt
use grip.Errors.{ok, err, Message}
use grip.Env.{Env}
use grip.Deps.{Deps, Entries}
use grip.Gc.Heap.{InnerValue, Heap, write_slot}
use grip.Gc.Value.{Value}
use grip.Ffi.World.{M, pure, ◌>>=◌, ◌>>◌, assume, exported}
use grip.Ffi.Ext.{
  try_and_log_ffi, chain_err, unconditionally_log_error, try_str_from_ptr, try_as_usize,
  copy_unsafe_string, try_to_get_json_value_gc, borrow_inner, borrow_slot, try_to_get_json_value,
  write_inner, gc_json, insert_json,
}
use grip.Ffi.Reads.{copy_string, read_number, read_float, read_bool, json_float, json_cell, type_id}
use grip.Ffi.Arrays.{catch_unwind}
use grip.Ffi.Index.{Found, index_selective_safe_rc_gc, index_selective_safe_or_insert_rc_gc}

-- `json_type > 7 || json_type < 1`
pub is_type : ℤ → Bool
is_type (pos n) = leb 1 n && leb n 7
is_type (negsuc n) = false

-- The names and discriminants of an object's members, in order.
unfoldable pub discriminants : {d : Deps} → Heap d → Entries → Option (List (Bytes × ℕ))
unfolding type_id
discriminants h [] = some []
discriminants h ((k, s) ∷ es) = Opt.◌>>=◌ (h.slot s) λ a.
    Opt.◌>>=◌ (h.value a) λ v. Opt.◌>>=◌ (discriminants h es) λ rest. some ((k, type_id v) ∷ rest)

-- Equal names and discriminants, in the same order.
pub same_shape : List (Bytes × ℕ) → List (Bytes × ℕ) → Bool
same_shape [] [] = true
same_shape ((j, s) ∷ xs) ((k, t) ∷ ys) = bytes_eq j k && s == t && same_shape xs ys
same_shape _ _ = false

module _ {e : Env} where
  unfoldable pub try_found : Found → M e ℕ
  unfolding unconditionally_log_error
  try_found (ok s) = pure s
  try_found (err m) = unconditionally_log_error m

  unfoldable pub try_to_get_json_object_value_rc_gc : ℤ → ℕ → Bool → M e ℕ
  unfolding try_to_get_json_value_gc try_str_from_ptr try_found
  try_to_get_json_object_value_rc_gc object name dot_notation = do
    a ← try_to_get_json_value_gc object
    s ← try_str_from_ptr name Message.bad_pointer
    found ← (λ w. assume (index_selective_safe_rc_gc w.heap a s dot_notation) w)
    try_found found

  -- A missing last member is made, as `null`.
  unfoldable pub try_to_get_json_object_value_or_insert_rc_gc : ℤ → ℕ → Bool → M e ℕ
  unfolding try_to_get_json_value_gc try_str_from_ptr try_found
  try_to_get_json_object_value_or_insert_rc_gc object name dot_notation = do
    a ← try_to_get_json_value_gc object
    s ← try_str_from_ptr name Message.bad_pointer
    (found, h) ← (λ w.
        assume (index_selective_safe_or_insert_rc_gc w.heap a s dot_notation (some InnerValue.null))
          w)
    (λ w. pure tt (record w { heap = h }))
    try_found found

  unfoldable pub try_to_get_json_object_value_gc : ℤ → ℕ → Bool → M e ℕ
  unfolding try_to_get_json_object_value_rc_gc borrow_slot
  try_to_get_json_object_value_gc object name dot_notation =
      try_to_get_json_object_value_rc_gc object name dot_notation >>= borrow_slot

  unfoldable pub try_to_get_json_object_value : ℤ → ℕ → Bool → M e (InnerValue e.deps)
  unfolding try_to_get_json_object_value_gc borrow_inner
  try_to_get_json_object_value object name dot_notation =
      try_to_get_json_object_value_gc object name dot_notation >>= borrow_inner

  unfoldable pub grip_json_object_get_value : ℤ → ℕ → Bool → M e ℤ
  unfolding try_to_get_json_object_value_gc insert_json
  grip_json_object_get_value object name dot_notation =
      exported do a ← try_to_get_json_object_value_gc object name dot_notation; insert_json a

  unfoldable pub grip_json_object_get_string : ℤ → ℕ → ℕ → ℤ → Bool → M e ℤ
  unfolding try_to_get_json_object_value copy_string
  grip_json_object_get_string object name buffer maxlen dot_notation =
      exported
        do v ← try_to_get_json_object_value object name dot_notation; copy_string buffer maxlen v

  unfoldable pub grip_json_object_get_number : ℤ → ℕ → Bool → M e ℤ
  unfolding try_to_get_json_object_value read_number
  grip_json_object_get_number object name dot_notation =
      exported do v ← try_to_get_json_object_value object name dot_notation; read_number v

  unfoldable pub grip_json_object_get_float : ℤ → ℕ → Bool → ℕ → M e ℤ
  unfolding try_to_get_json_object_value read_float
  grip_json_object_get_float object name dot_notation ret =
      exported do v ← try_to_get_json_object_value object name dot_notation; read_float ret v

  unfoldable pub grip_json_object_get_bool : ℤ → ℕ → Bool → M e ℤ
  unfolding try_to_get_json_object_value read_bool
  grip_json_object_get_bool object name dot_notation =
      exported
        do v ← try_to_get_json_object_value object name dot_notation; read_bool Message.not_bool v

  unfoldable pub as_object : Message → InnerValue e.deps → M e e.Map
  unfolding unconditionally_log_error
  as_object message (InnerValue.object m) = pure m
  as_object message InnerValue.null = unconditionally_log_error message
  as_object message (InnerValue.bool b) = unconditionally_log_error message
  as_object message (InnerValue.number n) = unconditionally_log_error message
  as_object message (InnerValue.string s) = unconditionally_log_error message
  as_object message (InnerValue.array cells) = unconditionally_log_error message

  unfoldable pub grip_json_object_get_count : ℤ → M e ℤ
  unfolding try_to_get_json_value as_object
  grip_json_object_get_count object = exported do
    v ← try_to_get_json_value object
    m ← as_object Message.not_object v
    pure (as_isize e.isize_max (e.len m))

  unfoldable pub try_get_index : e.Map → ℤ → M e (Bytes × ℕ)
  unfolding try_as_usize try_and_log_ffi
  try_get_index m index = do
    i ← try_as_usize index
    try_and_log_ffi (chain_err (e.get_index m i) Message.index_not_found)

  unfoldable pub grip_json_object_get_name : ℤ → ℤ → ℕ → ℤ → M e ℤ
  unfolding try_to_get_json_value as_object try_get_index copy_unsafe_string
  grip_json_object_get_name object index buffer maxlen = exported do
    v ← try_to_get_json_value object
    m ← as_object Message.not_object v
    (name, s) ← try_get_index m index
    copy_unsafe_string buffer name maxlen

  unfoldable pub grip_json_object_get_value_at : ℤ → ℤ → M e ℤ
  unfolding try_to_get_json_value as_object try_get_index borrow_slot insert_json
  grip_json_object_get_value_at object index = exported do
    v ← try_to_get_json_value object
    m ← as_object Message.not_object v
    (name, s) ← try_get_index m index
    a ← borrow_slot s
    insert_json a

  unfoldable pub grip_json_object_has_value : ℤ → ℕ → ℤ → Bool → M e ℤ
  unfolding try_to_get_json_object_value unconditionally_log_error type_id is_type
  grip_json_object_has_value object name json_type dot_notation = exported do
    v ← try_to_get_json_object_value object name dot_notation
    (if is_type json_type
        then pure tt
        else unconditionally_log_error (Message.invalid_json_type json_type))
    pure (if int_eq json_type (pos 7) || int_eq (pos (type_id v)) json_type then pos 1 else pos 0)

  -- `*try_to_get_json_object_value_gc_or_insert_mut!(…) = …`: the right side is evaluated first.
  unfoldable pub set_member : ℤ → ℕ → Bool → M e ℕ → M e ℤ
  unfolding try_to_get_json_object_value_or_insert_rc_gc
  set_member object name dot_notation new = do
    b ← new
    s ← try_to_get_json_object_value_or_insert_rc_gc object name dot_notation
    λ w. pure (pos 1) (record w { heap = write_slot s b w.heap })

  unfoldable pub grip_json_object_set_value : ℤ → ℕ → ℤ → Bool → M e ℤ
  unfolding set_member try_to_get_json_value_gc catch_unwind
  grip_json_object_set_value object name value dot_notation =
      exported (catch_unwind (set_member object name dot_notation (try_to_get_json_value_gc value)))

  unfoldable pub grip_json_object_set_string : ℤ → ℕ → ℕ → Bool → M e ℤ
  unfolding set_member try_str_from_ptr gc_json
  grip_json_object_set_string object name string dot_notation = exported (
      set_member object name dot_notation
        do s ← try_str_from_ptr string Message.not_utf8; gc_json (Value.string s))

  unfoldable pub grip_json_object_set_number : ℤ → ℕ → ℤ → Bool → M e ℤ
  unfolding set_member gc_json
  grip_json_object_set_number object name number dot_notation =
      exported (set_member object name dot_notation (gc_json (json_cell number)))

  unfoldable pub grip_json_object_set_float : ℤ → ℕ → e.Float → Bool → M e ℤ
  unfolding set_member gc_json
  grip_json_object_set_float object name number dot_notation =
      exported (set_member object name dot_notation (gc_json (json_float number)))

  unfoldable pub grip_json_object_set_bool : ℤ → ℕ → Bool → Bool → M e ℤ
  unfolding set_member gc_json
  grip_json_object_set_bool object name value dot_notation =
      exported (set_member object name dot_notation (gc_json (Value.bool value)))

  unfoldable pub grip_json_object_set_null : ℤ → ℕ → Bool → M e ℤ
  unfolding set_member gc_json
  grip_json_object_set_null object name dot_notation =
      exported (set_member object name dot_notation (gc_json Value.null))

  -- The handle is looked up, and the object's kind checked, before the name is read.
  unfoldable pub grip_json_object_remove : ℤ → ℕ → M e ℤ
  unfolding try_to_get_json_value_gc borrow_inner as_object try_str_from_ptr write_inner
  grip_json_object_remove object name = exported do
    a ← try_to_get_json_value_gc object
    v ← borrow_inner a
    m ← as_object Message.not_object v
    s ← try_str_from_ptr name Message.not_utf8
    write_inner a (InnerValue.object (e.remove m s)) >> pure (pos 1)

  unfoldable pub grip_json_object_clear : ℤ → M e ℤ
  unfolding try_to_get_json_value_gc borrow_inner as_object write_inner
  grip_json_object_clear object = exported do
    a ← try_to_get_json_value_gc object
    v ← borrow_inner a
    m ← as_object Message.not_object v
    write_inner a (InnerValue.object (e.clear m)) >> pure (pos 1)

  unfoldable pub grip_json_validate : ℤ → ℤ → M e ℤ
  unfolding try_to_get_json_value as_object discriminants same_shape
  grip_json_validate schema value = exported do
    v ← try_to_get_json_value schema
    m ← as_object Message.schema_not_object v
    u ← try_to_get_json_value value
    n ← as_object Message.schema_not_object u
    xs ← (λ w. assume (discriminants w.heap (e.entries m)) w)
    ys ← (λ w. assume (discriminants w.heap (e.entries n)) w)
    pure (if same_shape xs ys then pos 1 else pos 0)
