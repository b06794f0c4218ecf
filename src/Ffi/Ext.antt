-- ===== src/Ffi/Ext.antt =====
-- rust/src/ffi/ext.rs: the macros that every exported function is written with.
use grip.Common.{ℕ, ◌+◌, Option, none, some, List, [], ◌∷◌, ◌++◌, if◌then◌else◌, ◌==◌, get_elem?}
use grip.Common.Int.{ℤ, pos, negsuc, as_isize}
use grip.Common.Bytes.{Bytes, c_string}
use grip.Errors.{
  Result, ok, err, Message, Error, ffi, empty_option, negative_size, invalid_json, not_array,
}
use grip.Env.{Env}
use grip.Utf8.{is_utf8}
use grip.Strlcpy.{strlcpy}
use grip.CellMap
use grip.Gc.Heap.{InnerValue, update, write}
use grip.Gc.Value.{Value}
use grip.Gc.Convert.{from_value}
use grip.Ffi.World.{ModuleStorage, Failure, M, leave, pure, ◌>>=◌, ◌>>◌, faults, unwrap, assume}

-- `.chain_err(|| ffi_error(…))` at an `Option`.
abbrev pub chain_err : {A H J : Type 0} → Option A → Message → Result A (Error H J)
chain_err none m = err (ffi m)
chain_err (some a) m = ok a

-- `.to_str()` with the message of its error.
abbrev pub to_str : {H J : Type 0} → Bytes → Message → Result Bytes (Error H J)
to_str s m = if is_utf8 s then ok s else err (ffi m)

unfoldable pub ptr_to_option : ℕ → Option ℕ
ptr_to_option p = if p == 0 then none else some p

module _ {e : Env} where
  -- `get_module`: it panics before `grip_init`.
  unfoldable pub get_module : M e (ModuleStorage e)
  get_module w = unwrap w.storage w

  -- A change of the module through `get_module_mut`.
  unfoldable pub put_module : ModuleStorage e → M e (Unit {0})
  put_module m w = pure tt (record w { storage = some m })

  unfoldable pub log_error : Failure e → M e (Unit {0})
  unfolding get_module
  log_error x = get_module >> λ w. pure tt (record w { logged = w.logged ++ x ∷ [] })

  -- `try_and_log_ffi!` at a `Result`, and at an `Option`, whose error is "Got empty option".
  unfoldable pub try_and_log_ffi : {A : Type 0} → Result A (Failure e) → M e A
  unfolding log_error
  try_and_log_ffi (ok a) = pure a
  try_and_log_ffi (err x) = log_error x >> leave (pos 0)

  unfoldable pub try_option : {A : Type 0} → Option A → M e A
  unfolding try_and_log_ffi
  try_option o = try_and_log_ffi (chain_err o empty_option)

  unfoldable pub unconditionally_log_error : {A : Type 0} → Message → M e A
  unfolding log_error
  unconditionally_log_error m = log_error (ffi m) >> leave (pos 0)

  -- `CStr::from_ptr`: undefined at a null pointer and where no NUL ends the string.
  unfoldable pub c_str : ℕ → M e Bytes
  c_str p =
      if p == 0 then faults else do bytes ← (λ w. assume (w.memory p) w); assume (c_string bytes)

  unfoldable pub try_str_from_ptr : ℕ → Message → M e Bytes
  unfolding c_str try_and_log_ffi
  try_str_from_ptr p m = do s ← c_str p; try_and_log_ffi (to_str s m)

  unfoldable pub try_as_usize : ℤ → M e ℕ
  unfolding unconditionally_log_error
  try_as_usize (pos n) = pure n
  try_as_usize (negsuc n) = unconditionally_log_error (negative_size (negsuc n))

  -- `try_to_copy_unsafe_string!`
  unfoldable pub copy_unsafe_string : ℕ → Bytes → ℤ → M e ℤ
  unfolding try_as_usize
  copy_unsafe_string dest source charsmax = do
    n ← try_as_usize charsmax
    buffer ← (if dest == 0 then faults else λ w. assume (w.memory dest) w)
    (len, buffer') ← assume (strlcpy buffer (source ++ 0 ∷ []) (n + 1))
    λ w. pure (as_isize e.isize_max len) (record w { memory = update w.memory dest buffer' })

  unfoldable pub try_to_get_json_value_gc : ℤ → M e ℕ
  unfolding get_module try_and_log_ffi
  try_to_get_json_value_gc value = do
    m ← get_module
    try_and_log_ffi (chain_err (CellMap.get_with_id m.json_handles value) (invalid_json value))

  -- `gc_borrow_inner!`
  unfoldable pub borrow_inner : ℕ → M e (InnerValue e.deps)
  borrow_inner a w = assume (w.heap.value a) w

  unfoldable pub borrow_slot : ℕ → M e ℕ
  borrow_slot s w = assume (w.heap.slot s) w

  unfoldable pub try_to_get_json_value : ℤ → M e (InnerValue e.deps)
  unfolding try_to_get_json_value_gc borrow_inner
  try_to_get_json_value value = try_to_get_json_value_gc value >>= borrow_inner

  unfoldable pub as_array : InnerValue e.deps → M e (List ℕ)
  unfolding unconditionally_log_error
  as_array (InnerValue.array cells) = pure cells
  as_array InnerValue.null = unconditionally_log_error not_array
  as_array (InnerValue.bool b) = unconditionally_log_error not_array
  as_array (InnerValue.number n) = unconditionally_log_error not_array
  as_array (InnerValue.string s) = unconditionally_log_error not_array
  as_array (InnerValue.object m) = unconditionally_log_error not_array

  unfoldable pub try_to_get_json_array : ℤ → M e (List ℕ)
  unfolding try_to_get_json_value as_array
  try_to_get_json_array value = try_to_get_json_value value >>= as_array

  -- The cell is returned with its content, so that the caller can write the content back.
  unfoldable pub try_to_get_json_array_mut : ℤ → M e (ℕ × List ℕ)
  unfolding try_to_get_json_value_gc borrow_inner as_array
  try_to_get_json_array_mut value = do
    a ← try_to_get_json_value_gc value
    v ← borrow_inner a
    cells ← as_array v
    pure (a, cells)

  unfoldable pub try_to_get_json_array_value : ℤ → ℤ → M e ℕ
  unfolding try_to_get_json_array try_as_usize try_option
  try_to_get_json_array_value array index = do
    cells ← try_to_get_json_array array
    i ← try_as_usize index
    try_option (get_elem? cells i)

  -- `get_mut`: the array's cell and content, and the index that is in range.
  unfoldable pub try_to_get_json_array_value_mut : ℤ → ℤ → M e (ℕ × List ℕ × ℕ)
  unfolding try_to_get_json_array_mut try_as_usize try_option
  try_to_get_json_array_value_mut array index = do
    (a, cells) ← try_to_get_json_array_mut array
    i ← try_as_usize index
    try_option (get_elem? cells i) >> pure (a, cells, i)

  unfoldable pub write_inner : ℕ → InnerValue e.deps → M e (Unit {0})
  write_inner a v w = pure tt (record w { heap = write a v w.heap })

  -- `gc_json!`: a tree moved to the heap.
  unfoldable pub gc_json : Value e.deps → M e ℕ
  gc_json v w = let (a, h) = from_value v w.heap in pure a (record w { heap = h })

  -- `json_handles.insert_with_unique_id`
  unfoldable pub insert_json : ℕ → M e ℤ
  unfolding get_module put_module
  insert_json a = do
    m ← get_module
    (id, handles) ← unwrap (CellMap.insert_with_unique_id e.isize_max m.json_handles a)
    put_module (record m { json_handles = handles }) >> pure id
