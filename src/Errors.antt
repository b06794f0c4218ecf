-- ===== src/Errors.antt =====
-- The error type of rust/src/lib.rs, and the messages of the `ffi_error` calls. An error here is
-- the head of its chain; the causes below the head only add text to what is logged.
use grip.Common.Int.{ℤ}
use grip.Common.Bytes.{Bytes}

-- `std::result::Result`.
pub data Result {ℓ κ} (A : Type ℓ) (E : Type κ) : Type (ℓ ⊔ κ) where
  ok : A → Result A E
  err : E → Result A E

-- The texts of the `FFIError`s and of the other string errors, with what they print. One message
-- stands for texts that say the same of different functions: with a colon or without, "JSON Handle"
-- or "JSON at object index", "float" or "32 bit float", and the wordings for text that is not UTF-8.
-- A JSON value that is printed behind the text is left out.
pub data Message : Type 0 where
  invalid_body invalid_json invalid_json_value invalid_options no_cancellation : ℤ → Message
  invalid_value1 invalid_value2 : ℤ → Message
  invalid_request_type invalid_json_type negative_size : ℤ → Message
  bad_pointer not_utf8 invalid_uri uri_not_utf8 header_not_utf8 header_value_not_utf8
        bad_header_value :
      Message
  uri_parsing : Bytes → Message
  not_array not_object not_string not_number not_bool not_integer not_float : Message
  no_response no_state no_error response_failed bad_timeout cannot_open cannot_create cannot_write :
      Message
  cannot_serialize index_not_found panicked schema_not_object : Message
  double_separator missing_member member_of_non_object : Bytes → Message
  name_invalid empty_option : Message

-- `ErrorKind`, over the foreign error types of `reqwest` and `serde_json`.
pub data Error (H J : Type 0) : Type 0 where
  ffi : Message → Error H J
  request_cancelled : Error H J
  request_timeout : Error H J
  http : H → Error H J
  json : J → Error H J
