-- ===== src/Ffi/Calls.antt =====
-- The interface of rust/src/ffi/mod.rs as a whole: what the C++ side may call.
pub mod Contract
pub mod Safety
mod Tests
use grip.Common.{ℕ, Bool, Option}
use grip.Common.Int.{ℤ}
use grip.Env.{Env}
use grip.Ffi.World.{M, pure, ◌>>◌}
use grip.Ffi.Arrays.{
  grip_json_array_get_value, grip_json_array_get_string, grip_json_array_get_number,
  grip_json_array_get_float, grip_json_array_get_bool, grip_json_array_get_count,
  grip_json_array_replace_value, grip_json_array_replace_string, grip_json_array_replace_number,
  grip_json_array_replace_float, grip_json_array_replace_bool, grip_json_array_replace_null,
  grip_json_array_append_value, grip_json_array_append_string, grip_json_array_append_number,
  grip_json_array_append_float, grip_json_array_append_bool, grip_json_array_append_null,
  grip_json_array_remove, grip_json_array_clear,
}
use grip.Ffi.Values.{
  grip_body_from_json, grip_destroy_json_value, grip_json_get_type, grip_json_init_object,
  grip_json_init_array, grip_json_init_number, grip_json_init_float, grip_json_init_bool,
  grip_json_init_null, grip_json_init_string, grip_json_get_string, grip_json_get_number,
  grip_json_get_float, grip_json_get_bool, grip_json_deep_copy, grip_json_serial_size,
  grip_json_serial_to_string,
}
use grip.Ffi.Objects.{
  grip_json_object_get_value, grip_json_object_get_string, grip_json_object_get_number,
  grip_json_object_get_float, grip_json_object_get_bool, grip_json_object_get_count,
  grip_json_object_get_name, grip_json_object_get_value_at, grip_json_object_has_value,
  grip_json_object_set_value, grip_json_object_set_string, grip_json_object_set_number,
  grip_json_object_set_float, grip_json_object_set_bool, grip_json_object_set_null,
  grip_json_object_remove, grip_json_object_clear, grip_json_validate,
}
use grip.Ffi.Responses.{
  grip_destroy_body, grip_body_from_string, grip_destroy_options, grip_options_add_header,
  grip_cancel_request, grip_is_request_active, grip_get_response_state, grip_get_error_description,
  grip_get_response_body_string, grip_get_response_status_code, grip_json_parse_response_body,
  grip_json_parse_string,
}
use grip.Ffi.Requests.{
  Plugin, Collector, grip_request, grip_create_default_options, grip_process_request, grip_deinit,
  grip_is_initialized,
}
use grip.Ffi.Files.{Disk, grip_json_parse_file, grip_json_serial_to_file}
use grip.Ffi.Init.{Ini, grip_init}
use grip.Ffi.Equals.{grip_json_equals}

-- A call of an exported function, with its arguments. `json_equals` has first the equality of
-- serde_json's numbers and the room on the stack.
pub data Call (e : Env) : Type 1 where
  request : ℤ → ℕ → ℤ → ℤ → Option ℕ → ℤ → ℤ → Call e
  init : Ini → ℕ → Call e
  json_parse_file : Disk e → ℕ → ℕ → ℤ → Call e
  json_serial_to_file : Disk e → ℤ → ℕ → Bool → ℤ → Call e
  create_default_options : e.Float → Call e
  process_request : Plugin e → Collector e → ℕ → ℕ → ℕ → Call e
  deinit : Call e
  is_initialized : Call e
  destroy_body : ℤ → Call e
  body_from_string : ℕ → Call e
  destroy_options : ℤ → Call e
  options_add_header : ℤ → ℕ → ℕ → Call e
  cancel_request : ℤ → Call e
  is_request_active : ℤ → Call e
  get_response_state : Call e
  get_error_description : ℕ → ℤ → Call e
  get_response_body_string : ℕ → ℤ → Call e
  get_response_status_code : Call e
  json_parse_response_body : ℕ → ℤ → Call e
  json_parse_string : ℕ → ℕ → ℤ → Call e
  body_from_json : ℤ → Bool → ℤ → Call e
  destroy_json_value : ℤ → Call e
  json_equals : (e.Number → e.Number → Bool) → ℕ → ℤ → ℤ → Call e
  json_get_type : ℤ → Call e
  json_init_object : Call e
  json_init_array : Call e
  json_init_number : ℤ → Call e
  json_init_float : e.Float → Call e
  json_init_bool : Bool → Call e
  json_init_null : Call e
  json_init_string : ℕ → Call e
  json_get_string : ℤ → ℕ → ℤ → Call e
  json_get_number : ℤ → Call e
  json_get_float : ℤ → ℕ → Call e
  json_get_bool : ℤ → Call e
  json_deep_copy : ℤ → ℤ → Call e
  json_serial_size : ℤ → Bool → Bool → ℤ → Call e
  json_serial_to_string : ℤ → Bool → ℕ → ℤ → ℤ → Call e
  json_array_get_value : ℤ → ℤ → Call e
  json_array_get_string : ℤ → ℤ → ℕ → ℤ → Call e
  json_array_get_number : ℤ → ℤ → Call e
  json_array_get_float : ℤ → ℤ → ℕ → Call e
  json_array_get_bool : ℤ → ℤ → Call e
  json_array_get_count : ℤ → Call e
  json_array_replace_value : ℤ → ℤ → ℤ → Call e
  json_array_replace_string : ℤ → ℤ → ℕ → Call e
  json_array_replace_number : ℤ → ℤ → ℤ → Call e
  json_array_replace_float : ℤ → ℤ → e.Float → Call e
  json_array_replace_bool : ℤ → ℤ → Bool → Call e
  json_array_replace_null : ℤ → ℤ → Call e
  json_array_append_value : ℤ → ℤ → Call e
  json_array_append_string : ℤ → ℕ → Call e
  json_array_append_number : ℤ → ℤ → Call e
  json_array_append_float : ℤ → e.Float → Call e
  json_array_append_bool : ℤ → Bool → Call e
  json_array_append_null : ℤ → Call e
  json_array_remove : ℤ → ℤ → Call e
  json_array_clear : ℤ → Call e
  json_object_get_value : ℤ → ℕ → Bool → Call e
  json_object_get_string : ℤ → ℕ → ℕ → ℤ → Bool → Call e
  json_object_get_number : ℤ → ℕ → Bool → Call e
  json_object_get_float : ℤ → ℕ → Bool → ℕ → Call e
  json_object_get_bool : ℤ → ℕ → Bool → Call e
  json_object_get_count : ℤ → Call e
  json_object_get_name : ℤ → ℤ → ℕ → ℤ → Call e
  json_object_get_value_at : ℤ → ℤ → Call e
  json_object_has_value : ℤ → ℕ → ℤ → Bool → Call e
  json_object_set_value : ℤ → ℕ → ℤ → Bool → Call e
  json_object_set_string : ℤ → ℕ → ℕ → Bool → Call e
  json_object_set_number : ℤ → ℕ → ℤ → Bool → Call e
  json_object_set_float : ℤ → ℕ → e.Float → Bool → Call e
  json_object_set_bool : ℤ → ℕ → Bool → Bool → Call e
  json_object_set_null : ℤ → ℕ → Bool → Call e
  json_object_remove : ℤ → ℕ → Call e
  json_object_clear : ℤ → Call e
  json_validate : ℤ → ℤ → Call e

module _ {e : Env} where
  -- The function itself; what it returns is not looked at.
  abbrev pub run : Call e → M e (Unit {0})
  run (Call.request forward_id uri body request_type handler options user_data) =
      grip_request forward_id uri body request_type handler options user_data >> pure tt
  run (Call.init ini config_file_path) = grip_init ini config_file_path >> pure tt
  run (Call.json_parse_file disk file buffer size) =
      grip_json_parse_file disk file buffer size >> pure tt
  run (Call.json_serial_to_file disk value file pretty limit) =
      grip_json_serial_to_file disk value file pretty limit >> pure tt
  run (Call.create_default_options timeout) = grip_create_default_options timeout >> pure tt
  run (Call.process_request plugin collector now stamp last) =
      grip_process_request plugin collector now stamp last >> pure tt
  run Call.deinit = grip_deinit >> pure tt
  run Call.is_initialized = grip_is_initialized >> pure tt
  run (Call.destroy_body body) = grip_destroy_body body >> pure tt
  run (Call.body_from_string string) = grip_body_from_string string >> pure tt
  run (Call.destroy_options options) = grip_destroy_options options >> pure tt
  run (Call.options_add_header options name value) =
      grip_options_add_header options name value >> pure tt
  run (Call.cancel_request cancellation) = grip_cancel_request cancellation >> pure tt
  run (Call.is_request_active request_id) = grip_is_request_active request_id >> pure tt
  run Call.get_response_state = grip_get_response_state >> pure tt
  run (Call.get_error_description buffer size) = grip_get_error_description buffer size >> pure tt
  run (Call.get_response_body_string buffer size) =
      grip_get_response_body_string buffer size >> pure tt
  run Call.get_response_status_code = grip_get_response_status_code >> pure tt
  run (Call.json_parse_response_body buffer size) =
      grip_json_parse_response_body buffer size >> pure tt
  run (Call.json_parse_string string buffer size) =
      grip_json_parse_string string buffer size >> pure tt
  run (Call.body_from_json value pretty limit) = grip_body_from_json value pretty limit >> pure tt
  run (Call.destroy_json_value value) = grip_destroy_json_value value >> pure tt
  run (Call.json_equals number_eq depth value1 value2) =
      grip_json_equals number_eq depth value1 value2 >> pure tt
  run (Call.json_get_type value) = grip_json_get_type value >> pure tt
  run Call.json_init_object = grip_json_init_object >> pure tt
  run Call.json_init_array = grip_json_init_array >> pure tt
  run (Call.json_init_number value) = grip_json_init_number value >> pure tt
  run (Call.json_init_float value) = grip_json_init_float value >> pure tt
  run (Call.json_init_bool value) = grip_json_init_bool value >> pure tt
  run Call.json_init_null = grip_json_init_null >> pure tt
  run (Call.json_init_string string) = grip_json_init_string string >> pure tt
  run (Call.json_get_string value buffer size) = grip_json_get_string value buffer size >> pure tt
  run (Call.json_get_number value) = grip_json_get_number value >> pure tt
  run (Call.json_get_float value ret) = grip_json_get_float value ret >> pure tt
  run (Call.json_get_bool value) = grip_json_get_bool value >> pure tt
  run (Call.json_deep_copy object limit) = grip_json_deep_copy object limit >> pure tt
  run (Call.json_serial_size value pretty null_byte limit) =
      grip_json_serial_size value pretty null_byte limit >> pure tt
  run (Call.json_serial_to_string value pretty buffer maxlen limit) =
      grip_json_serial_to_string value pretty buffer maxlen limit >> pure tt
  run (Call.json_array_get_value array index) = grip_json_array_get_value array index >> pure tt
  run (Call.json_array_get_string array index buffer size) =
      grip_json_array_get_string array index buffer size >> pure tt
  run (Call.json_array_get_number array index) = grip_json_array_get_number array index >> pure tt
  run (Call.json_array_get_float array index ret) =
      grip_json_array_get_float array index ret >> pure tt
  run (Call.json_array_get_bool array index) = grip_json_array_get_bool array index >> pure tt
  run (Call.json_array_get_count array) = grip_json_array_get_count array >> pure tt
  run (Call.json_array_replace_value array index value) =
      grip_json_array_replace_value array index value >> pure tt
  run (Call.json_array_replace_string array index string) =
      grip_json_array_replace_string array index string >> pure tt
  run (Call.json_array_replace_number array index value) =
      grip_json_array_replace_number array index value >> pure tt
  run (Call.json_array_replace_float array index value) =
      grip_json_array_replace_float array index value >> pure tt
  run (Call.json_array_replace_bool array index value) =
      grip_json_array_replace_bool array index value >> pure tt
  run (Call.json_array_replace_null array index) =
      grip_json_array_replace_null array index >> pure tt
  run (Call.json_array_append_value array value) =
      grip_json_array_append_value array value >> pure tt
  run (Call.json_array_append_string array string) =
      grip_json_array_append_string array string >> pure tt
  run (Call.json_array_append_number array value) =
      grip_json_array_append_number array value >> pure tt
  run (Call.json_array_append_float array value) =
      grip_json_array_append_float array value >> pure tt
  run (Call.json_array_append_bool array value) = grip_json_array_append_bool array value >> pure tt
  run (Call.json_array_append_null array) = grip_json_array_append_null array >> pure tt
  run (Call.json_array_remove array index) = grip_json_array_remove array index >> pure tt
  run (Call.json_array_clear array) = grip_json_array_clear array >> pure tt
  run (Call.json_object_get_value object name dot) =
      grip_json_object_get_value object name dot >> pure tt
  run (Call.json_object_get_string object name buffer maxlen dot) =
      grip_json_object_get_string object name buffer maxlen dot >> pure tt
  run (Call.json_object_get_number object name dot) =
      grip_json_object_get_number object name dot >> pure tt
  run (Call.json_object_get_float object name dot ret) =
      grip_json_object_get_float object name dot ret >> pure tt
  run (Call.json_object_get_bool object name dot) =
      grip_json_object_get_bool object name dot >> pure tt
  run (Call.json_object_get_count object) = grip_json_object_get_count object >> pure tt
  run (Call.json_object_get_name object index buffer maxlen) =
      grip_json_object_get_name object index buffer maxlen >> pure tt
  run (Call.json_object_get_value_at object index) =
      grip_json_object_get_value_at object index >> pure tt
  run (Call.json_object_has_value object name json_type dot) =
      grip_json_object_has_value object name json_type dot >> pure tt
  run (Call.json_object_set_value object name value dot) =
      grip_json_object_set_value object name value dot >> pure tt
  run (Call.json_object_set_string object name string dot) =
      grip_json_object_set_string object name string dot >> pure tt
  run (Call.json_object_set_number object name value dot) =
      grip_json_object_set_number object name value dot >> pure tt
  run (Call.json_object_set_float object name value dot) =
      grip_json_object_set_float object name value dot >> pure tt
  run (Call.json_object_set_bool object name value dot) =
      grip_json_object_set_bool object name value dot >> pure tt
  run (Call.json_object_set_null object name dot) =
      grip_json_object_set_null object name dot >> pure tt
  run (Call.json_object_remove object name) = grip_json_object_remove object name >> pure tt
  run (Call.json_object_clear object) = grip_json_object_clear object >> pure tt
  run (Call.json_validate schema value) = grip_json_validate schema value >> pure tt
