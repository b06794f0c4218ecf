-- ===== src/Ffi/Arrays.antt =====
-- rust/src/ffi/mod.rs: `grip_json_array_*`.
use grip.Common.{ℕ, Bool, [], ◌∷◌, ◌++◌, set, length, vec_remove}
use grip.Common.Int.{ℤ, pos, as_isize}
use grip.Errors.{Message, ffi}
use grip.Env.{Env}
use grip.Gc.Heap.{InnerValue}
use grip.Gc.Value.{Value}
use grip.Ffi.World.{done, leave, panic, fault, M, pure, ◌>>=◌, ◌>>◌, unwrap, exported}
use grip.Ffi.Ext.{
  log_error, try_str_from_ptr, try_as_usize, try_to_get_json_value_gc, borrow_inner,
  try_to_get_json_array, try_to_get_json_array_mut, try_to_get_json_array_value,
  try_to_get_json_array_value_mut, write_inner, gc_json, insert_json,
}
use grip.Ffi.Reads.{copy_string, read_number, read_float, read_bool, json_float, json_cell}

module _ {e : Env} where
  unfoldable pub grip_json_array_get_value : ℤ → ℤ → M e ℤ
  unfolding try_to_get_json_array_value insert_json
  grip_json_array_get_value array index =
      exported do a ← try_to_get_json_array_value array index; insert_json a

  unfoldable pub grip_json_array_get_string : ℤ → ℤ → ℕ → ℤ → M e ℤ
  unfolding try_to_get_json_array_value borrow_inner copy_string
  grip_json_array_get_string array index buffer buffer_size = exported do
    a ← try_to_get_json_array_value array index
    v ← borrow_inner a
    copy_string buffer buffer_size v

  unfoldable pub grip_json_array_get_number : ℤ → ℤ → M e ℤ
  unfolding try_to_get_json_array_value borrow_inner read_number
  grip_json_array_get_number array index =
      exported do a ← try_to_get_json_array_value array index; v ← borrow_inner a; read_number v

  unfoldable pub grip_json_array_get_float : ℤ → ℤ → ℕ → M e ℤ
  unfolding try_to_get_json_array_value borrow_inner read_float
  grip_json_array_get_float array index ret =
      exported do a ← try_to_get_json_array_value array index; v ← borrow_inner a; read_float ret v

  unfoldable pub grip_json_array_get_bool : ℤ → ℤ → M e ℤ
  unfolding try_to_get_json_array_value borrow_inner read_bool
  grip_json_array_get_bool array index = exported do
    a ← try_to_get_json_array_value array index
    v ← borrow_inner a
    read_bool Message.not_number v

  unfoldable pub grip_json_array_get_count : ℤ → M e ℤ
  unfolding try_to_get_json_array
  grip_json_array_get_count array =
      exported do cells ← try_to_get_json_array array; pure (as_isize e.isize_max (length cells))

  -- `*try_to_get_json_array_value_mut!(…) = …`: the right side is evaluated first.
  unfoldable pub replace_with : ℤ → ℤ → M e ℕ → M e ℤ
  unfolding try_to_get_json_array_value_mut write_inner
  replace_with array index new = do
    b ← new
    (a, cells, i) ← try_to_get_json_array_value_mut array index
    write_inner a (InnerValue.array (set cells i b)) >> pure (pos 1)

  -- `catch_unwind` around a body whose early returns leave the closure only.
  unfoldable pub catch_unwind : M e ℤ → M e ℤ
  unfolding log_error
  catch_unwind m w = elim (m w) [
    | done c w' ↦ done c w'
    | leave c w' ↦ done c w'
    | panic w' ↦ (log_error (ffi Message.panicked) >> leave (pos 0)) w'
    | fault ↦ fault
  ]

  unfoldable pub grip_json_array_replace_value : ℤ → ℤ → ℤ → M e ℤ
  unfolding replace_with try_to_get_json_value_gc catch_unwind
  grip_json_array_replace_value array index value =
      exported (catch_unwind (replace_with array index (try_to_get_json_value_gc value)))

  unfoldable pub grip_json_array_replace_string : ℤ → ℤ → ℕ → M e ℤ
  unfolding replace_with try_str_from_ptr gc_json
  grip_json_array_replace_string array index string = exported (
      replace_with array index
        do s ← try_str_from_ptr string Message.not_utf8; gc_json (Value.string s))

  unfoldable pub grip_json_array_replace_number : ℤ → ℤ → ℤ → M e ℤ
  unfolding replace_with gc_json
  grip_json_array_replace_number array index value =
      exported (replace_with array index (gc_json (json_cell value)))

  unfoldable pub grip_json_array_replace_float : ℤ → ℤ → e.Float → M e ℤ
  unfolding replace_with gc_json
  grip_json_array_replace_float array index value =
      exported (replace_with array index (gc_json (json_float value)))

  unfoldable pub grip_json_array_replace_bool : ℤ → ℤ → Bool → M e ℤ
  unfolding replace_with gc_json
  grip_json_array_replace_bool array index value =
      exported (replace_with array index (gc_json (Value.bool value)))

  unfoldable pub grip_json_array_replace_null : ℤ → ℤ → M e ℤ
  unfolding replace_with gc_json
  grip_json_array_replace_null array index =
      exported (replace_with array index (gc_json Value.null))

  -- `try_to_get_json_array_mut!(…).push(…)`: the array is looked up before the argument is made.
  unfoldable pub push_onto : ℤ → M e ℕ → M e ℤ
  unfolding try_to_get_json_array_mut write_inner
  push_onto array new = do
    (a, cells) ← try_to_get_json_array_mut array
    b ← new
    write_inner a (InnerValue.array (cells ++ b ∷ [])) >> pure (pos 1)

  unfoldable pub grip_json_array_append_value : ℤ → ℤ → M e ℤ
  unfolding push_onto try_to_get_json_value_gc catch_unwind
  grip_json_array_append_value array value =
      exported (catch_unwind (push_onto array (try_to_get_json_value_gc value)))

  unfoldable pub grip_json_array_append_string : ℤ → ℕ → M e ℤ
  unfolding push_onto try_str_from_ptr gc_json
  grip_json_array_append_string array string =
      exported
        (push_onto array do s ← try_str_from_ptr string Message.not_utf8; gc_json (Value.string s))

  unfoldable pub grip_json_array_append_number : ℤ → ℤ → M e ℤ
  unfolding push_onto gc_json
  grip_json_array_append_number array value = exported (push_onto array (gc_json (json_cell value)))

  unfoldable pub grip_json_array_append_float : ℤ → e.Float → M e ℤ
  unfolding push_onto gc_json
  grip_json_array_append_float array value = exported (push_onto array (gc_json (json_float value)))

  unfoldable pub grip_json_array_append_bool : ℤ → Bool → M e ℤ
  unfolding push_onto gc_json
  grip_json_array_append_bool array value = exported (push_onto array (gc_json (Value.bool value)))

  unfoldable pub grip_json_array_append_null : ℤ → M e ℤ
  unfolding push_onto gc_json
  grip_json_array_append_null array = exported (push_onto array (gc_json Value.null))

  -- `Vec::remove` panics at an index that is out of range.
  unfoldable pub grip_json_array_remove : ℤ → ℤ → M e ℤ
  unfolding try_to_get_json_array_mut try_as_usize write_inner
  grip_json_array_remove array index = exported do
    (a, cells) ← try_to_get_json_array_mut array
    i ← try_as_usize index
    rest ← unwrap (vec_remove i cells)
    write_inner a (InnerValue.array rest) >> pure (pos 1)

  unfoldable pub grip_json_array_clear : ℤ → M e ℤ
  unfolding try_to_get_json_array_mut write_inner
  grip_json_array_clear array = exported do
    (a, cells) ← try_to_get_json_array_mut array
    write_inner a (InnerValue.array []) >> pure (pos 1)
