-- ===== src/Ffi/Reads.antt =====
-- What is read out of one JSON value: the cases that the getters of rust/src/ffi/mod.rs share,
-- and the values that its `init`, `replace`, `append` and `set` functions make.
use grip.Common.{ℕ, none, some, if◌then◌else◌, ◌==◌}
use grip.Common.Int.{ℤ, pos, wrap_isize}
use grip.Errors.{Message}
use grip.Env.{Env}
use grip.Deps.{Deps}
use grip.Gc.Heap.{InnerValue, update}
use grip.Gc.Value.{Value}
use grip.Ffi.World.{M, faults, assume, pure, ◌>>=◌, ◌>>◌}
use grip.Ffi.Ext.{try_and_log_ffi, chain_err, unconditionally_log_error, copy_unsafe_string}

module _ {e : Env} where
  -- `InnerValue::String(s) => try_to_copy_unsafe_string!(…)`, and the error of every other value.
  unfoldable pub copy_string : ℕ → ℤ → InnerValue e.deps → M e ℤ
  unfolding copy_unsafe_string unconditionally_log_error
  copy_string buffer size (InnerValue.string s) = copy_unsafe_string buffer s size
  copy_string buffer size InnerValue.null = unconditionally_log_error Message.not_string
  copy_string buffer size (InnerValue.bool b) = unconditionally_log_error Message.not_string
  copy_string buffer size (InnerValue.number n) = unconditionally_log_error Message.not_string
  copy_string buffer size (InnerValue.array cells) = unconditionally_log_error Message.not_string
  copy_string buffer size (InnerValue.object m) = unconditionally_log_error Message.not_string

  unfoldable pub as_number : InnerValue e.deps → M e e.Number
  unfolding unconditionally_log_error
  as_number (InnerValue.number n) = pure n
  as_number InnerValue.null = unconditionally_log_error Message.not_number
  as_number (InnerValue.bool b) = unconditionally_log_error Message.not_number
  as_number (InnerValue.string s) = unconditionally_log_error Message.not_number
  as_number (InnerValue.array cells) = unconditionally_log_error Message.not_number
  as_number (InnerValue.object m) = unconditionally_log_error Message.not_number

  -- `n.as_i64()`, cast to a cell.
  unfoldable pub read_number : InnerValue e.deps → M e ℤ
  unfolding as_number try_and_log_ffi
  read_number v = do
    n ← as_number v
    z ← try_and_log_ffi (chain_err (e.as_i64 n) Message.not_integer)
    pure (wrap_isize e.isize_max z)

  -- `*ret = x`: undefined at a null pointer and where there is no such memory.
  unfoldable pub write_float : ℕ → e.Float → M e (Unit {0})
  write_float ret x = do
    (if ret == 0 then faults else λ w. assume (w.floats ret) w)
    λ w. pure tt (record w { floats = update w.floats ret x })

  -- `*ret = n.as_f64() as f32`, and 1.
  unfoldable pub read_float : ℕ → InnerValue e.deps → M e ℤ
  unfolding as_number try_and_log_ffi write_float
  read_float ret v = do
    n ← as_number v
    x ← try_and_log_ffi (chain_err (e.as_f64 n) Message.not_float)
    write_float ret (e.to_f32 x) >> pure (pos 1)

  -- The message differs between the callers.
  unfoldable pub read_bool : Message → InnerValue e.deps → M e ℤ
  unfolding unconditionally_log_error
  read_bool m (InnerValue.bool b) = pure (if b then pos 1 else pos 0)
  read_bool m InnerValue.null = unconditionally_log_error m
  read_bool m (InnerValue.number n) = unconditionally_log_error m
  read_bool m (InnerValue.string s) = unconditionally_log_error m
  read_bool m (InnerValue.array cells) = unconditionally_log_error m
  read_bool m (InnerValue.object o) = unconditionally_log_error m

-- The codes of `grip_json_get_type` and `grip_json_object_has_value`.
unfoldable pub type_id : {d : Deps} → InnerValue d → ℕ
type_id InnerValue.null = 1
type_id (InnerValue.string s) = 2
type_id (InnerValue.number n) = 3
type_id (InnerValue.object m) = 4
type_id (InnerValue.array cells) = 5
type_id (InnerValue.bool b) = 6

-- `json!(x)` of a float: `null` for what JSON has no number for.
abbrev pub json_float : {d : Deps} → d.Float → Value d
json_float {d} x = elim (d.of_float x) [ none ↦ Value.null | some n ↦ Value.number n ]

abbrev pub json_cell : {d : Deps} → ℤ → Value d
json_cell {d} z = Value.number (d.of_cell z)
