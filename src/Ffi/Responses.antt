-- ===== src/Ffi/Responses.antt =====
-- rust/src/ffi/mod.rs: bodies, options, cancellations, and the response of the running callback.
use grip.Common.{ℕ, Option, none, some, ◌∷◌, if◌then◌else◌, is_some}
use grip.Common.Int.{ℤ, pos, as_isize}
use grip.Errors.{Result, ok, err, Message, Error, ffi}
use grip.Env.{Env}
use grip.CellMap
use grip.CellMap.{CellMap}
use grip.Gc.Value.{Value}
use grip.Ffi.World.{ModuleStorage, Failure, M, pure, ◌>>=◌, ◌>>◌, unwrap, exported}
use grip.Ffi.Ext.{
  get_module, put_module, try_and_log_ffi, chain_err, to_str, unconditionally_log_error,
  ptr_to_option, c_str, try_str_from_ptr, copy_unsafe_string, gc_json, insert_json,
}
use grip.Queue.{Response}
use grip.Ffi.Values.{insert_body}

module _ {e : Env} where
  unfoldable pub grip_destroy_body : ℤ → M e ℤ
  unfolding get_module put_module try_and_log_ffi
  grip_destroy_body body = exported do
    m ← get_module
    let (removed, handles) = CellMap.remove_with_id m.bodies_handles body
    put_module (record m { bodies_handles = handles })
    try_and_log_ffi (chain_err removed (Message.invalid_body body))
    pure (pos 1)

  unfoldable pub grip_body_from_string : ℕ → M e ℤ
  unfolding get_module ptr_to_option try_and_log_ffi c_str insert_body
  grip_body_from_string str = exported do
    m ← get_module
    p ← try_and_log_ffi (chain_err (ptr_to_option str) Message.invalid_uri)
    s ← c_str p
    insert_body s

  unfoldable pub grip_destroy_options : ℤ → M e ℤ
  unfolding get_module put_module try_and_log_ffi
  grip_destroy_options options_handle = exported do
    m ← get_module
    let (removed, handles) = CellMap.remove_with_id m.options_handles options_handle
    put_module (record m { options_handles = handles })
    try_and_log_ffi (chain_err removed (Message.invalid_options options_handle))
    pure (pos 1)

  unfoldable pub grip_options_add_header : ℤ → ℕ → ℕ → M e ℤ
  unfolding get_module put_module try_and_log_ffi try_str_from_ptr
  grip_options_add_header options_handle header_name header_value = exported do
    m ← get_module
    option ← try_and_log_ffi (
        chain_err (CellMap.get_with_id m.options_handles options_handle)
          (Message.invalid_options options_handle))
    name ← try_str_from_ptr header_name Message.header_not_utf8
    text ← try_str_from_ptr header_value Message.header_value_not_utf8
    value ← try_and_log_ffi (chain_err (e.header_value text) Message.bad_header_value)
    headers ← unwrap (e.insert_header option.headers name value)
    put_module (record m {
      options_handles =
          CellMap.set_with_id m.options_handles options_handle
            (record option { headers = headers });
    })
    pure (pos 1)

  -- The sender of a removed `RequestCancellation` is dropped, which its channel notices.
  unfoldable pub drop_sender : Option ℕ → ModuleStorage e → ModuleStorage e
  drop_sender none m = m
  drop_sender (some channel) m =
      let q = m.global_queue in
      record m { global_queue = record q { dropped = channel ∷ q.dropped } }

  unfoldable pub grip_cancel_request : ℤ → M e ℤ
  unfolding get_module put_module try_and_log_ffi drop_sender
  grip_cancel_request cancellation = exported do
    m ← get_module
    let (removed, handles) = CellMap.remove_with_id m.cancellations_handles cancellation
    put_module (drop_sender removed (record m { cancellations_handles = handles }))
    try_and_log_ffi (chain_err removed (Message.no_cancellation cancellation))
    pure (pos 1)

  unfoldable pub grip_is_request_active : ℤ → M e ℤ
  unfolding get_module
  grip_is_request_active request_id = exported do
    m ← get_module
    pure (if is_some (CellMap.get_with_id m.cancellations_handles request_id) then pos 1 else pos 0)

  -- What every function on the current response begins with, by the message when there is none.
  unfoldable pub try_response : Message → M e (Result (Response e) (Failure e))
  unfolding get_module try_and_log_ffi
  try_response message = do m ← get_module; try_and_log_ffi (chain_err m.current_response message)

  unfoldable pub response_state : Result (Response e) (Failure e) → ℕ
  response_state (ok r) = 3
  response_state (err Error.request_cancelled) = 1
  response_state (err Error.request_timeout) = 4
  response_state (err (ffi m)) = 2
  response_state (err (Error.http x)) = 2
  response_state (err (Error.json x)) = 2

  unfoldable pub grip_get_response_state : M e ℤ
  unfolding try_response response_state
  grip_get_response_state =
      exported do r ← try_response Message.no_state; pure (pos (response_state r))

  -- `if let Ok(response) = … else`: an error is logged.
  unfoldable pub succeeded : Result (Response e) (Failure e) → M e (Response e)
  unfolding unconditionally_log_error
  succeeded (ok r) = pure r
  succeeded (err x) = unconditionally_log_error Message.response_failed

  unfoldable pub describe : ℕ → ℤ → Result (Response e) (Failure e) → M e ℤ
  unfolding unconditionally_log_error try_and_log_ffi copy_unsafe_string
  describe buffer size (ok r) = unconditionally_log_error Message.no_error
  describe buffer size (err Error.request_cancelled) = try_and_log_ffi (err Error.request_cancelled)
  describe buffer size (err Error.request_timeout) =
      copy_unsafe_string buffer (e.display_chain Error.request_timeout) size
  describe buffer size (err (ffi m)) = copy_unsafe_string buffer (e.display_chain (ffi m)) size
  describe buffer size (err (Error.http x)) =
      copy_unsafe_string buffer (e.display_chain (Error.http x)) size
  describe buffer size (err (Error.json x)) =
      copy_unsafe_string buffer (e.display_chain (Error.json x)) size

  unfoldable pub grip_get_error_description : ℕ → ℤ → M e ℤ
  unfolding try_response describe
  grip_get_error_description buffer size =
      exported do r ← try_response Message.no_response; describe buffer size r

  unfoldable pub grip_get_response_body_string : ℕ → ℤ → M e ℤ
  unfolding try_response succeeded try_and_log_ffi copy_unsafe_string
  grip_get_response_body_string buffer size = exported do
    result ← try_response Message.no_response
    r ← succeeded result
    s ← try_and_log_ffi (to_str r.body Message.not_utf8)
    copy_unsafe_string buffer s size

  -- The `-1` behind the logging macro is never reached: the macro returns 0.
  unfoldable pub grip_get_response_status_code : M e ℤ
  unfolding try_response succeeded
  grip_get_response_status_code = exported do
    result ← try_response Message.no_response
    r ← succeeded result
    pure (as_isize e.isize_max r.status_code)

  -- What the three parsers do with the result of `serde_json`.
  unfoldable pub parsed : ℕ → ℤ → Result (Value e.deps) e.JsonError → M e ℤ
  unfolding gc_json insert_json copy_unsafe_string
  parsed error_buffer error_buffer_size (ok value) = gc_json value >>= insert_json
  parsed error_buffer error_buffer_size (err x) =
      copy_unsafe_string error_buffer (e.display_chain (Error.json x)) error_buffer_size
      >> pure (pos 0)

  unfoldable pub grip_json_parse_response_body : ℕ → ℤ → M e ℤ
  unfolding try_response succeeded parsed
  grip_json_parse_response_body error_buffer error_buffer_size = exported do
    result ← try_response Message.no_response
    r ← succeeded result
    parsed error_buffer error_buffer_size (e.from_slice r.body)

  unfoldable pub grip_json_parse_string : ℕ → ℕ → ℤ → M e ℤ
  unfolding try_str_from_ptr parsed
  grip_json_parse_string string error_buffer error_buffer_size = exported do
    s ← try_str_from_ptr string Message.not_utf8
    parsed error_buffer error_buffer_size (e.from_slice s)
