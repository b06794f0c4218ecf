-- ===== src/Ffi/Calls/Contract.antt =====
-- What the C++ side owes at a call of rust/src/ffi/mod.rs, and the sequences of its calls.
use grip.Common.{ℕ, ◌≤◌, ◌≡◌, Option}
use grip.Common.Int.{ℤ, pos, negsuc}
use grip.Common.Bytes.{Bytes}
use grip.Env.{Env}
use grip.Ffi.World.{World, done}
use grip.Ffi.Safe.Macros.{Readable, Floating}
use grip.Ffi.Safe.Values.{Writable}
use grip.Ffi.Safe.Module.{Checked}
use grip.Ffi.Safe.Frames.{Keeps, Collects}
use grip.Ffi.Calls.{Call, run}

-- A recursion limit other than 0, which wraps to the largest one; a negative limit is refused.
abbrev pub Limited : ℤ → Type 0
Limited (pos n) = 1 ≤ n
Limited (negsuc n) = Unit

module _ {e : Env} where
  -- What the caller owes: texts end in a NUL, buffers have room for as many bytes as it says and one
  -- more, a pointer to a `float` leads to one, recursion limits are not 0, and its handlers and the package's collector leave a
  -- sound world.
  abbrev pub Ready : Call e → World e → Type 0
  Ready (Call.request forward_id uri body request_type handler options user_data) w = Checked uri w
  Ready (Call.init ini config_file_path) w = Readable config_file_path w
  Ready (Call.json_parse_file disk file buffer size) w = Readable file w × Writable buffer size w
  Ready (Call.json_serial_to_file disk value file pretty limit) w = Readable file w × Limited limit
  Ready (Call.create_default_options timeout) w = Unit
  Ready (Call.process_request plugin collector now stamp last) w = Keeps plugin × Collects collector
  Ready Call.deinit w = Unit
  Ready Call.is_initialized w = Unit
  Ready (Call.destroy_body body) w = Unit
  Ready (Call.body_from_string string) w = Checked string w
  Ready (Call.destroy_options options) w = Unit
  Ready (Call.options_add_header options name value) w = Readable name w × Readable value w
  Ready (Call.cancel_request cancellation) w = Unit
  Ready (Call.is_request_active request_id) w = Unit
  Ready Call.get_response_state w = Unit
  Ready (Call.get_error_description buffer size) w = Writable buffer size w
  Ready (Call.get_response_body_string buffer size) w = Writable buffer size w
  Ready Call.get_response_status_code w = Unit
  Ready (Call.json_parse_response_body buffer size) w = Writable buffer size w
  Ready (Call.json_parse_string string buffer size) w = Readable string w × Writable buffer size w
  Ready (Call.body_from_json value pretty limit) w = Limited limit
  Ready (Call.destroy_json_value value) w = Unit
  Ready (Call.json_equals number_eq depth value1 value2) w = Unit
  Ready (Call.json_get_type value) w = Unit
  Ready Call.json_init_object w = Unit
  Ready Call.json_init_array w = Unit
  Ready (Call.json_init_number value) w = Unit
  Ready (Call.json_init_float value) w = Unit
  Ready (Call.json_init_bool value) w = Unit
  Ready Call.json_init_null w = Unit
  Ready (Call.json_init_string string) w = Readable string w
  Ready (Call.json_get_string value buffer size) w = Writable buffer size w
  Ready (Call.json_get_number value) w = Unit
  Ready (Call.json_get_float value ret) w = Floating ret w
  Ready (Call.json_get_bool value) w = Unit
  Ready (Call.json_deep_copy object limit) w = Limited limit
  Ready (Call.json_serial_size value pretty null_byte limit) w = Limited limit
  Ready (Call.json_serial_to_string value pretty buffer maxlen limit) w =
      Writable buffer maxlen w × Limited limit
  Ready (Call.json_array_get_value array index) w = Unit
  Ready (Call.json_array_get_string array index buffer size) w = Writable buffer size w
  Ready (Call.json_array_get_number array index) w = Unit
  Ready (Call.json_array_get_float array index ret) w = Floating ret w
  Ready (Call.json_array_get_bool array index) w = Unit
  Ready (Call.json_array_get_count array) w = Unit
  Ready (Call.json_array_replace_value array index value) w = Unit
  Ready (Call.json_array_replace_string array index string) w = Readable string w
  Ready (Call.json_array_replace_number array index value) w = Unit
  Ready (Call.json_array_replace_float array index value) w = Unit
  Ready (Call.json_array_replace_bool array index value) w = Unit
  Ready (Call.json_array_replace_null array index) w = Unit
  Ready (Call.json_array_append_value array value) w = Unit
  Ready (Call.json_array_append_string array string) w = Readable string w
  Ready (Call.json_array_append_number array value) w = Unit
  Ready (Call.json_array_append_float array value) w = Unit
  Ready (Call.json_array_append_bool array value) w = Unit
  Ready (Call.json_array_append_null array) w = Unit
  Ready (Call.json_array_remove array index) w = Unit
  Ready (Call.json_array_clear array) w = Unit
  Ready (Call.json_object_get_value object name dot) w = Readable name w
  Ready (Call.json_object_get_string object name buffer maxlen dot) w =
      Readable name w × Writable buffer maxlen w
  Ready (Call.json_object_get_number object name dot) w = Readable name w
  Ready (Call.json_object_get_float object name dot ret) w = Readable name w × Floating ret w
  Ready (Call.json_object_get_bool object name dot) w = Readable name w
  Ready (Call.json_object_get_count object) w = Unit
  Ready (Call.json_object_get_name object index buffer maxlen) w = Writable buffer maxlen w
  Ready (Call.json_object_get_value_at object index) w = Unit
  Ready (Call.json_object_has_value object name json_type dot) w = Readable name w
  Ready (Call.json_object_set_value object name value dot) w = Readable name w
  Ready (Call.json_object_set_string object name string dot) w = Readable name w × Readable string w
  Ready (Call.json_object_set_number object name value dot) w = Readable name w
  Ready (Call.json_object_set_float object name value dot) w = Readable name w
  Ready (Call.json_object_set_bool object name value dot) w = Readable name w
  Ready (Call.json_object_set_null object name dot) w = Readable name w
  Ready (Call.json_object_remove object name) w = Readable name w
  Ready (Call.json_object_clear object) w = Unit
  Ready (Call.json_validate schema value) w = Unit

-- What the C++ side does between two looks at the library: calls that return, and writes to its own
-- memory and to files.
pub data Session {e : Env} (w : World e) : World e → Type 1 where
  start : Session w w
  returns :
      (v u : World e) (c : Call e) → Session w v → Ready c v → run c v ≡ done tt u → Session w u
  writes :
      (v : World e) (memory : ℕ → Option Bytes) (floats : ℕ → Option e.Float)
      (files : Bytes → Option Bytes)
      → Session w v
      → Session w (record v { memory = memory; floats = floats; files = files })
