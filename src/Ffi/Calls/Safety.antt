-- ===== src/Ffi/Calls/Safety.antt =====
-- The functions of rust/src/ffi/mod.rs in any sequence run into nothing undefined.
use grip.Common.{is_some, subst}
use grip.Env.{Env}
use grip.Gc.Value.{Value, nil, end}
use grip.Ffi.World.{World, Outcome, done, leave, panic, fault, pure, and_then}
use grip.Ffi.Ext.{try_to_get_json_value_gc}
use grip.Ffi.Reads.{json_cell, json_float}
use grip.Ffi.Arrays.{
  replace_with, push_onto, grip_json_array_replace_value, grip_json_array_replace_string,
  grip_json_array_replace_number, grip_json_array_replace_float, grip_json_array_replace_bool,
  grip_json_array_replace_null, grip_json_array_append_value, grip_json_array_append_string,
  grip_json_array_append_number, grip_json_array_append_float, grip_json_array_append_bool,
  grip_json_array_append_null,
}
use grip.Ffi.Values.{
  grip_json_init_object, grip_json_init_array, grip_json_init_number, grip_json_init_float,
  grip_json_init_bool, grip_json_init_null,
}
use grip.Ffi.Objects.{
  set_member, grip_json_object_set_value, grip_json_object_set_string, grip_json_object_set_number,
  grip_json_object_set_float, grip_json_object_set_bool, grip_json_object_set_null,
}
use grip.Ffi.Requests.{grip_process_request, grip_is_initialized}
use grip.Ffi.Equals.Ending.{grip_json_equals-Ends}
use grip.Ffi.Safe.{Sound, Ends, Fine-Ends, Ends-then}
use grip.Ffi.Safe.Values.{
  grip_body_from_json-Ends, grip_destroy_json_value-Ends, grip_json_array_get_string-Ends,
  grip_json_deep_copy-Ends, grip_json_get_bool-Ends, grip_json_get_float-Ends,
  grip_json_get_number-Ends, grip_json_get_string-Ends, grip_json_get_type-Ends,
  grip_json_init_string-Ends, grip_json_serial_size-Ends, grip_json_serial_to_string-Ends,
  init_json-Ends,
}
use grip.Ffi.Safe.Module.{
  grip_body_from_string-Ends, grip_cancel_request-Ends, grip_create_default_options-Ends,
  grip_destroy_body-Ends, grip_destroy_options-Ends, grip_get_error_description-Ends,
  grip_get_response_body_string-Ends, grip_get_response_state-Ends,
  grip_get_response_status_code-Ends, grip_is_request_active-Ends,
  grip_json_parse_response_body-Ends, grip_json_parse_string-Ends, grip_options_add_header-Ends,
}
use grip.Ffi.Safe.Frames.{grip_deinit-Ends, grip_process_request-Ends, grip_request-Ends}
use grip.Ffi.Safe.Files.{grip_init-Ends, grip_json_parse_file-Ends, grip_json_serial_to_file-Ends}
use grip.Ffi.Safe.Arrays.{
  catch_unwind-Ends, exported-Ends, gc_json-Maker, grip_json_array_clear-Ends,
  grip_json_array_get_bool-Ends, grip_json_array_get_count-Ends, grip_json_array_get_float-Ends,
  grip_json_array_get_number-Ends, grip_json_array_get_value-Ends, grip_json_array_remove-Ends,
  handle-Maker, push_onto-Fine, replace_with-Fine, string-Maker,
}
use grip.Ffi.Safe.Objects.{
  grip_json_object_get_bool-Ends, grip_json_object_get_float-Ends, grip_json_object_get_number-Ends,
  grip_json_object_get_string-Ends, grip_json_object_get_value-Ends,
  grip_json_object_has_value-Ends, set_member-Fine,
}
use grip.Ffi.Safe.Members.{
  grip_json_object_clear-Ends, grip_json_object_get_count-Ends, grip_json_object_get_name-Ends,
  grip_json_object_get_value_at-Ends, grip_json_object_remove-Ends, grip_json_validate-Ends,
}
use grip.Ffi.Calls.{Call, run}
use grip.Ffi.Calls.Contract.{Ready, Session, start, returns, writes}

module _ {e : Env} where
  discarded : {A : Type 0} {o : Outcome e A} → Ends o → Ends (and_then o λ _. pure tt)
  discarded o = Ends-then {f = λ _. pure tt} o λ a v s. Ends.goes s

  run-Ends : (c : Call e) (w : World e) → Sound w → Ready c w → Ends (run c w)
  unfolding grip_process_request grip_is_initialized grip_json_init_object grip_json_init_array
      grip_json_init_number grip_json_init_float grip_json_init_bool grip_json_init_null
      grip_json_array_replace_value grip_json_array_replace_string grip_json_array_replace_number
      grip_json_array_replace_float grip_json_array_replace_bool grip_json_array_replace_null
      grip_json_array_append_value grip_json_array_append_string grip_json_array_append_number
      grip_json_array_append_float grip_json_array_append_bool grip_json_array_append_null
      grip_json_object_set_value grip_json_object_set_string grip_json_object_set_number
      grip_json_object_set_float grip_json_object_set_bool grip_json_object_set_null
  run-Ends (Call.request forward_id uri body request_type handler options user_data) w s r =
      discarded (grip_request-Ends w forward_id uri body request_type handler options user_data s r)
  run-Ends (Call.init ini config_file_path) w s r =
      discarded (grip_init-Ends w ini config_file_path s r)
  run-Ends (Call.json_parse_file disk file buffer size) w s r =
      discarded (grip_json_parse_file-Ends w disk file buffer size s r.0 r.1)
  run-Ends (Call.json_serial_to_file disk value file pretty limit) w s r =
      discarded (grip_json_serial_to_file-Ends w disk value file pretty limit s r.0)
  run-Ends (Call.create_default_options timeout) w s r =
      discarded (grip_create_default_options-Ends w timeout s)
  run-Ends (Call.process_request plugin collector now stamp last) w s r =
      discarded (grip_process_request-Ends plugin r.0 collector now stamp last w r.1 s)
  run-Ends Call.deinit w s r = discarded (grip_deinit-Ends w s)
  run-Ends Call.is_initialized w s r = discarded (Ends.goes {a = is_some w.storage} s)
  run-Ends (Call.destroy_body body) w s r = discarded (grip_destroy_body-Ends w body s)
  run-Ends (Call.body_from_string string) w s r =
      discarded (grip_body_from_string-Ends w string s r)
  run-Ends (Call.destroy_options options) w s r = discarded (grip_destroy_options-Ends w options s)
  run-Ends (Call.options_add_header options name value) w s r =
      discarded (grip_options_add_header-Ends w options name value s r.0 r.1)
  run-Ends (Call.cancel_request cancellation) w s r =
      discarded (grip_cancel_request-Ends w cancellation s)
  run-Ends (Call.is_request_active request_id) w s r =
      discarded (grip_is_request_active-Ends w request_id s)
  run-Ends Call.get_response_state w s r = discarded (grip_get_response_state-Ends w s)
  run-Ends (Call.get_error_description buffer size) w s r =
      discarded (grip_get_error_description-Ends w buffer size s r)
  run-Ends (Call.get_response_body_string buffer size) w s r =
      discarded (grip_get_response_body_string-Ends w buffer size s r)
  run-Ends Call.get_response_status_code w s r = discarded (grip_get_response_status_code-Ends w s)
  run-Ends (Call.json_parse_response_body buffer size) w s r =
      discarded (grip_json_parse_response_body-Ends w buffer size s r)
  run-Ends (Call.json_parse_string string buffer size) w s r =
      discarded (grip_json_parse_string-Ends w string buffer size s r.0 r.1)
  run-Ends (Call.body_from_json value pretty limit) w s r =
      discarded (grip_body_from_json-Ends w value pretty limit s)
  run-Ends (Call.destroy_json_value value) w s r =
      discarded (grip_destroy_json_value-Ends w value s)
  run-Ends (Call.json_equals number_eq depth value1 value2) w s r =
      discarded (grip_json_equals-Ends w number_eq depth value1 value2 s)
  run-Ends (Call.json_get_type value) w s r = discarded (grip_json_get_type-Ends w value s)
  run-Ends Call.json_init_object w s r = discarded (init_json-Ends w (Value.object end) s)
  run-Ends Call.json_init_array w s r = discarded (init_json-Ends w (Value.array nil) s)
  run-Ends (Call.json_init_number value) w s r = discarded (init_json-Ends w (json_cell value) s)
  run-Ends (Call.json_init_float value) w s r = discarded (init_json-Ends w (json_float value) s)
  run-Ends (Call.json_init_bool value) w s r = discarded (init_json-Ends w (Value.bool value) s)
  run-Ends Call.json_init_null w s r = discarded (init_json-Ends w (Value.null) s)
  run-Ends (Call.json_init_string string) w s r =
      discarded (grip_json_init_string-Ends w string s r)
  run-Ends (Call.json_get_string value buffer size) w s r =
      discarded (grip_json_get_string-Ends w value buffer size s r)
  run-Ends (Call.json_get_number value) w s r = discarded (grip_json_get_number-Ends w value s)
  run-Ends (Call.json_get_float value ret) w s r =
      discarded (grip_json_get_float-Ends w value ret s r)
  run-Ends (Call.json_get_bool value) w s r = discarded (grip_json_get_bool-Ends w value s)
  run-Ends (Call.json_deep_copy object limit) w s r =
      discarded (grip_json_deep_copy-Ends w object limit s)
  run-Ends (Call.json_serial_size value pretty null_byte limit) w s r =
      discarded (grip_json_serial_size-Ends w value pretty null_byte limit s)
  run-Ends (Call.json_serial_to_string value pretty buffer maxlen limit) w s r =
      discarded (grip_json_serial_to_string-Ends w value pretty buffer maxlen limit s r.0)
  run-Ends (Call.json_array_get_value array index) w s r =
      discarded (grip_json_array_get_value-Ends w array index s)
  run-Ends (Call.json_array_get_string array index buffer size) w s r =
      discarded (grip_json_array_get_string-Ends w array index buffer size s r)
  run-Ends (Call.json_array_get_number array index) w s r =
      discarded (grip_json_array_get_number-Ends w array index s)
  run-Ends (Call.json_array_get_float array index ret) w s r =
      discarded (grip_json_array_get_float-Ends w array index ret s r)
  run-Ends (Call.json_array_get_bool array index) w s r =
      discarded (grip_json_array_get_bool-Ends w array index s)
  run-Ends (Call.json_array_get_count array) w s r =
      discarded (grip_json_array_get_count-Ends w array s)
  run-Ends (Call.json_array_replace_value array index value) w s r = discarded (
      catch_unwind-Ends w (replace_with array index (try_to_get_json_value_gc value))
        (Fine-Ends (replace_with-Fine array index _ s (handle-Maker w value))))
  run-Ends (Call.json_array_replace_string array index string) w s r =
      discarded (exported-Ends (replace_with-Fine array index _ s (string-Maker w string r)))
  run-Ends (Call.json_array_replace_number array index value) w s r =
      discarded
        (exported-Ends (replace_with-Fine array index _ s (gc_json-Maker w (json_cell value))))
  run-Ends (Call.json_array_replace_float array index value) w s r =
      discarded
        (exported-Ends (replace_with-Fine array index _ s (gc_json-Maker w (json_float value))))
  run-Ends (Call.json_array_replace_bool array index value) w s r =
      discarded
        (exported-Ends (replace_with-Fine array index _ s (gc_json-Maker w (Value.bool value))))
  run-Ends (Call.json_array_replace_null array index) w s r =
      discarded (exported-Ends (replace_with-Fine array index _ s (gc_json-Maker w Value.null)))
  run-Ends (Call.json_array_append_value array value) w s r = discarded (
      catch_unwind-Ends w (push_onto array (try_to_get_json_value_gc value))
        (Fine-Ends (push_onto-Fine array _ s (handle-Maker w value))))
  run-Ends (Call.json_array_append_string array string) w s r =
      discarded (exported-Ends (push_onto-Fine array _ s (string-Maker w string r)))
  run-Ends (Call.json_array_append_number array value) w s r =
      discarded (exported-Ends (push_onto-Fine array _ s (gc_json-Maker w (json_cell value))))
  run-Ends (Call.json_array_append_float array value) w s r =
      discarded (exported-Ends (push_onto-Fine array _ s (gc_json-Maker w (json_float value))))
  run-Ends (Call.json_array_append_bool array value) w s r =
      discarded (exported-Ends (push_onto-Fine array _ s (gc_json-Maker w (Value.bool value))))
  run-Ends (Call.json_array_append_null array) w s r =
      discarded (exported-Ends (push_onto-Fine array _ s (gc_json-Maker w Value.null)))
  run-Ends (Call.json_array_remove array index) w s r =
      discarded (grip_json_array_remove-Ends w array index s)
  run-Ends (Call.json_array_clear array) w s r = discarded (grip_json_array_clear-Ends w array s)
  run-Ends (Call.json_object_get_value object name dot) w s r =
      discarded (grip_json_object_get_value-Ends w object name dot s r)
  run-Ends (Call.json_object_get_string object name buffer maxlen dot) w s r =
      discarded (grip_json_object_get_string-Ends w object name buffer maxlen dot s r.0 r.1)
  run-Ends (Call.json_object_get_number object name dot) w s r =
      discarded (grip_json_object_get_number-Ends w object name dot s r)
  run-Ends (Call.json_object_get_float object name dot ret) w s r =
      discarded (grip_json_object_get_float-Ends w object name dot ret s r.0 r.1)
  run-Ends (Call.json_object_get_bool object name dot) w s r =
      discarded (grip_json_object_get_bool-Ends w object name dot s r)
  run-Ends (Call.json_object_get_count object) w s r =
      discarded (grip_json_object_get_count-Ends w object s)
  run-Ends (Call.json_object_get_name object index buffer maxlen) w s r =
      discarded (grip_json_object_get_name-Ends w object index buffer maxlen s r)
  run-Ends (Call.json_object_get_value_at object index) w s r =
      discarded (grip_json_object_get_value_at-Ends w object index s)
  run-Ends (Call.json_object_has_value object name json_type dot) w s r =
      discarded (grip_json_object_has_value-Ends w object name json_type dot s r)
  run-Ends (Call.json_object_set_value object name value dot) w s r = discarded (
      catch_unwind-Ends w (set_member object name dot (try_to_get_json_value_gc value))
        (Fine-Ends (set_member-Fine object name dot _ s r (handle-Maker w value))))
  run-Ends (Call.json_object_set_string object name string dot) w s r =
      discarded
        (exported-Ends (set_member-Fine object name dot _ s r.0 (string-Maker w string r.1)))
  run-Ends (Call.json_object_set_number object name value dot) w s r =
      discarded
        (exported-Ends (set_member-Fine object name dot _ s r (gc_json-Maker w (json_cell value))))
  run-Ends (Call.json_object_set_float object name value dot) w s r =
      discarded
        (exported-Ends (set_member-Fine object name dot _ s r (gc_json-Maker w (json_float value))))
  run-Ends (Call.json_object_set_bool object name value dot) w s r =
      discarded
        (exported-Ends (set_member-Fine object name dot _ s r (gc_json-Maker w (Value.bool value))))
  run-Ends (Call.json_object_set_null object name dot) w s r =
      discarded (exported-Ends (set_member-Fine object name dot _ s r (gc_json-Maker w Value.null)))
  run-Ends (Call.json_object_remove object name) w s r =
      discarded (grip_json_object_remove-Ends w object name s r)
  run-Ends (Call.json_object_clear object) w s r =
      discarded (grip_json_object_clear-Ends w object s)
  run-Ends (Call.json_validate schema value) w s r =
      discarded (grip_json_validate-Ends w schema value s)

  Held : Outcome e (Unit {0}) → Type 0
  Held (done a v) = Sound v
  Held (leave c v) = Unit
  Held (panic v) = Unit
  Held fault = Unit

  Ends-Held : {o : Outcome e (Unit {0})} → Ends o → Held o
  unfolding Held
  Ends-Held (Ends.goes s) = s
  Ends-Held (Ends.left s) = tt
  Ends-Held (Ends.panicked s) = tt

  Session-Sound : {w v : World e} → Sound w → Session w v → Sound v
  unfolding Held
  Session-Sound s start = s
  Session-Sound s (returns v u c before ready q) =
      subst Held q (Ends-Held (run-Ends c v (Session-Sound s before) ready))
  Session-Sound s (writes v memory floats files before) =
      let sv = Session-Sound s before in record { heap = sv.heap; handles = sv.handles }

-- From a sound world on, whatever functions the C++ side has called so far with what they ask for,
-- and whatever has been written to its own memory and to files, each next call of a function with
-- what it asks for either returns or panics; it never reads a cell, a slot or a byte that is not
-- there nor reads or writes through a null or dangling pointer, and it leaves a sound world. What is
-- asked for includes that no recursion limit is 0 and that the handlers of the requests and the
-- collection of cycles leave a sound world. The stack is taken to have room for as many levels as a
-- recursion limit allows and for the values that an error's text prints; `grip_json_equals`, whose
-- room is given, counts as panicking where that is not enough.
pub call-Ends :
    {e : Env} (w v : World e) (c : Call e) → Sound w → Session w v → Ready c v → Ends (run c v)
call-Ends w v c s session ready = run-Ends c v (Session-Sound s session) ready
