-- ===== src/Ffi/Values.antt =====
-- rust/src/ffi/mod.rs: the functions on one JSON handle, and the serialisation.
use grip.Common.{ℕ, Bool, false, none, some, [], ◌∷◌, ◌++◌, if◌then◌else◌, length}
use grip.Common.Int.{ℤ, pos, as_isize}
use grip.Common.Bytes.{Bytes}
use grip.Errors.{Result, ok, err, Message, ffi}
use grip.Env.{Env}
use grip.CellMap
use grip.CellMap.{CellMap}
use grip.Gc.Value.{Value, nil, end}
use grip.Gc.Convert.{into_with_recursion_limit, deep_clone_with_recursion_limit}
use grip.Ffi.World.{Failure, M, pure, ◌>>=◌, ◌>>◌, unwrap, assume, exported}
use grip.Ffi.Ext.{
  get_module, put_module, try_and_log_ffi, chain_err, try_str_from_ptr, try_as_usize,
  copy_unsafe_string, try_to_get_json_value_gc, try_to_get_json_value, gc_json, insert_json,
}
use grip.Ffi.Reads.{
  copy_string, read_number, read_float, read_bool, json_float, json_cell, type_id, write_float,
}

-- `serialize_to_string`
unfoldable pub serialize_to_string :
    (e : Env) → Value e.deps → Bool → Bool → Result Bytes (Failure e)
serialize_to_string e value pretty null_byte = elim (e.to_string pretty value) [
  | none ↦ err (ffi Message.cannot_serialize)
  | some s ↦ ok (s ++ (if null_byte then 0 ∷ [] else []))
]

module _ {e : Env} where
  unfoldable pub grip_destroy_json_value : ℤ → M e ℤ
  unfolding get_module put_module try_and_log_ffi
  grip_destroy_json_value json_value = exported do
    m ← get_module
    let (removed, handles) = CellMap.remove_with_id m.json_handles json_value
    put_module (record m { json_handles = handles })
    try_and_log_ffi (chain_err removed (Message.invalid_json_value json_value))
    pure (pos 1)

  unfoldable pub grip_json_get_type : ℤ → M e ℤ
  unfolding try_to_get_json_value type_id
  grip_json_get_type value = exported do v ← try_to_get_json_value value; pure (pos (type_id v))

  -- The `init` functions: a new tree behind a new handle.
  unfoldable pub init_json : Value e.deps → M e ℤ
  unfolding get_module gc_json insert_json
  init_json v = exported do m ← get_module; a ← gc_json v; insert_json a

  unfoldable pub grip_json_init_object : M e ℤ
  unfolding init_json
  grip_json_init_object = init_json (Value.object end)

  unfoldable pub grip_json_init_array : M e ℤ
  unfolding init_json
  grip_json_init_array = init_json (Value.array nil)

  unfoldable pub grip_json_init_string : ℕ → M e ℤ
  unfolding init_json get_module try_str_from_ptr
  grip_json_init_string string =
      exported
        do m ← get_module; s ← try_str_from_ptr string Message.not_utf8; init_json (Value.string s)

  unfoldable pub grip_json_init_number : ℤ → M e ℤ
  unfolding init_json
  grip_json_init_number value = init_json (json_cell value)

  unfoldable pub grip_json_init_float : e.Float → M e ℤ
  unfolding init_json
  grip_json_init_float value = init_json (json_float value)

  unfoldable pub grip_json_init_bool : Bool → M e ℤ
  unfolding init_json
  grip_json_init_bool value = init_json (Value.bool value)

  unfoldable pub grip_json_init_null : M e ℤ
  unfolding init_json
  grip_json_init_null = init_json Value.null

  unfoldable pub grip_json_get_string : ℤ → ℕ → ℤ → M e ℤ
  unfolding try_to_get_json_value copy_string
  grip_json_get_string value buffer buffer_size =
      exported do v ← try_to_get_json_value value; copy_string buffer buffer_size v

  unfoldable pub grip_json_get_number : ℤ → M e ℤ
  unfolding try_to_get_json_value read_number
  grip_json_get_number value = exported do v ← try_to_get_json_value value; read_number v

  -- `*ret = 0.0` comes first.
  unfoldable pub grip_json_get_float : ℤ → ℕ → M e ℤ
  unfolding try_to_get_json_value read_float write_float
  grip_json_get_float value ret =
      exported do write_float ret e.float_zero; v ← try_to_get_json_value value; read_float ret v

  unfoldable pub grip_json_get_bool : ℤ → M e ℤ
  unfolding try_to_get_json_value read_bool
  grip_json_get_bool value =
      exported do v ← try_to_get_json_value value; read_bool Message.not_bool v

  unfoldable pub grip_json_deep_copy : ℤ → ℤ → M e ℤ
  unfolding try_to_get_json_value_gc try_as_usize insert_json
  grip_json_deep_copy object recursion_limit = exported do
    a ← try_to_get_json_value_gc object
    limit ← try_as_usize recursion_limit
    (b, h) ← (λ w. assume (deep_clone_with_recursion_limit a limit w.heap) w)
    (λ w. pure tt (record w { heap = h }))
    insert_json b

  -- The text of a handle's value: the handle, then the limit, then the serialisation.
  unfoldable pub serialized : ℤ → Bool → Bool → ℤ → M e Bytes
  unfolding try_to_get_json_value_gc try_as_usize serialize_to_string try_and_log_ffi
  serialized value pretty null_byte recursion_limit = do
    a ← try_to_get_json_value_gc value
    limit ← try_as_usize recursion_limit
    v ← (λ w. assume (into_with_recursion_limit w.heap a limit) w)
    try_and_log_ffi (serialize_to_string e v pretty null_byte)

  unfoldable pub grip_json_serial_size : ℤ → Bool → Bool → ℤ → M e ℤ
  unfolding serialized
  grip_json_serial_size value pretty null_byte recursion_limit = exported do
    s ← serialized value pretty null_byte recursion_limit
    pure (as_isize e.isize_max (length s))

  unfoldable pub grip_json_serial_to_string : ℤ → Bool → ℕ → ℤ → ℤ → M e ℤ
  unfolding serialized copy_unsafe_string
  grip_json_serial_to_string value pretty buffer maxlen recursion_limit =
      exported
        do s ← serialized value pretty false recursion_limit; copy_unsafe_string buffer s maxlen

  unfoldable pub insert_body : Bytes → M e ℤ
  unfolding get_module put_module
  insert_body s = do
    m ← get_module
    (id, handles) ← unwrap (CellMap.insert_with_unique_id e.isize_max m.bodies_handles s)
    put_module (record m { bodies_handles = handles }) >> pure id

  unfoldable pub grip_body_from_json : ℤ → Bool → ℤ → M e ℤ
  unfolding serialized insert_body
  grip_body_from_json value pretty recursion_limit =
      exported do s ← serialized value pretty false recursion_limit; insert_body s
