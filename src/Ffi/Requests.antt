-- ===== src/Ffi/Requests.antt =====
-- rust/src/ffi/mod.rs: the requests, the frame callback that runs the responses, and the end of the
-- module; with the receiving half of rust/src/networking_queue.rs.
use grip.Common.{
  ℕ, zero, suc, ◌+◌, ◌-◌, ◌^◌, ◌&&◌, leb, ◌*◌, ◌/◌, ◌%◌, min, Bool, true, false, Option, none, some,
  [], ◌++◌, map, if◌then◌else◌, ◌==◌, is_some,
}
use grip.Common.Int.{ℤ, pos, negsuc, int_eq}
use grip.Errors.{Result, ok, err, Message, ffi}
use grip.Env.{Env}
use grip.CellMap
use grip.CellMap.{CellMap}
use grip.Ffi.World.{World, ModuleStorage, Failure, M, pure, ◌>>=◌, ◌>>◌, unwrap, exported}
use grip.Ffi.Ext.{get_module, put_module, try_and_log_ffi, chain_err, to_str, ptr_to_option, c_str}
use grip.Queue
use grip.Queue.{RequestType, RequestOptions, Request, Response, Callback, OutputCommand, Queue}
use grip.Ffi.Responses.{drop_sender}

-- The C++ side's handlers: what the handler at an address does to the world when it is called with
-- a forward and the user's data. It may call the functions of this library in turn.
abbrev pub Plugin : Env → Type 0
Plugin e = ℕ → ℤ → ℤ → M e (Unit {0})

-- The collector of the `bacon_rajan_cc` package: what it calls back of this code, and what it frees,
-- is its own.
pub record Collector (e : Env) : Type 0 where
  pub number_of_roots_buffered : World e → ℕ
  pub collect_cycles : M e (Unit {0})

unfoldable pub request_type_of : ℤ → Option RequestType
request_type_of (pos n) =
    if n == 0
    then some RequestType.get
    else if n == 1
    then some RequestType.post
    else if n == 2
    then some RequestType.put
    else if n == 3
    then some RequestType.delete
    else none
request_type_of (negsuc n) = none

-- `.or_else(|| if handle == -1 { Some(&EMPTY) } else { None })`
abbrev pub or_empty : {A : Type 0} → Option A → ℤ → A → Option A
or_empty (some a) handle empty = some a
or_empty none handle empty = if int_eq handle (negsuc 0) then some empty else none

abbrev pub no_options : (e : Env) → RequestOptions e
no_options e = record { headers = e.no_headers; timeout = none }

-- The timeout of `grip_create_default_options`, given in seconds.
unfoldable pub timeout_of : (e : Env) → e.Float → Result (Option ℕ) (Failure e)
timeout_of e timeout =
    if e.is_minus_one timeout
    then ok none
    else if e.is_nonnegative timeout
    then ok (some (e.to_millis timeout * 1000000))
    else err (ffi Message.bad_timeout)

-- `cancellations_handles.clear()` before the queue is dropped: every sender goes.
unfoldable pub dropped_all : {e : Env} → ModuleStorage e → Queue e
dropped_all m =
    let q = m.global_queue in
    record q { dropped = map (λ entry. entry.1) m.cancellations_handles.inner ++ q.dropped }

module _ {e : Env} where
  unfoldable pub grip_request : ℤ → ℕ → ℤ → ℤ → Option ℕ → ℤ → ℤ → M e ℤ
  unfolding request_type_of try_and_log_ffi ptr_to_option c_str get_module put_module
  grip_request forward_id uri body_handle request_type handler options_handle user_data =
      exported do
        http_type ←
            try_and_log_ffi
              (chain_err (request_type_of request_type) (Message.invalid_request_type request_type))
        p ← try_and_log_ffi (chain_err (ptr_to_option uri) Message.invalid_uri)
        s ← c_str p
        text ← try_and_log_ffi (to_str s Message.uri_not_utf8)
        m ← get_module
        body ← try_and_log_ffi (
            chain_err (or_empty (CellMap.get_with_id m.bodies_handles body_handle) body_handle [])
              (Message.invalid_body body_handle))
        options ← try_and_log_ffi (
            chain_err
              (or_empty (CellMap.get_with_id m.options_handles options_handle) options_handle
                (no_options e))
              (Message.invalid_options options_handle))
        let next = CellMap.peek_id m.cancellations_handles
        url ← try_and_log_ffi (chain_err (e.parse_url text) (Message.uri_parsing text))
        let request : Request e = record {
          http_type = http_type;
          uri = url;
          body = body;
          options = options;
        }
        let callback : Callback = record {
          handler = handler;
          forward_id = forward_id;
          user_data = user_data;
          next_cancellation_id = next;
        }
        let (cancellation, queue) = Queue.send_request m.global_queue request callback
        put_module (record m { global_queue = queue })
        m ← get_module
        (id, handles) ←
            unwrap (CellMap.insert_with_unique_id e.isize_max m.cancellations_handles cancellation)
        put_module (record m { cancellations_handles = handles })
        pure id

  unfoldable pub grip_create_default_options : e.Float → M e ℤ
  unfolding get_module put_module try_and_log_ffi timeout_of
  grip_create_default_options timeout = exported do
    m ← get_module
    t ← try_and_log_ffi (timeout_of e timeout)
    (id, handles) ← unwrap (
        CellMap.insert_with_unique_id e.isize_max m.options_handles
          (record { headers = e.no_headers; timeout = t }))
    put_module (record m { options_handles = handles })
    pure id

  -- The closure that `grip_request` builds.
  unfoldable pub call_back : Plugin e → Callback → Result (Response e) (Failure e) → M e (Unit {0})
  unfolding get_module put_module drop_sender
  call_back plugin callback response = do
    m ← get_module
    put_module (record m { current_response = some response })
    handler ← unwrap callback.handler
    plugin handler callback.forward_id callback.user_data
    m ← get_module
    let (removed, handles) =
        CellMap.remove_with_id m.cancellations_handles callback.next_cancellation_id
    put_module (drop_sender removed (record m { cancellations_handles = handles }))
    m ← get_module
    put_module (record m { current_response = none })

  unfoldable pub deliver : Plugin e → OutputCommand e → M e (Unit {0})
  unfolding call_back
  deliver plugin (OutputCommand.response r callback) = call_back plugin callback (ok r)
  deliver plugin (OutputCommand.error x callback) = call_back plugin callback (err x)

  -- `try_recv_queue`: whether there was a result to deliver.
  unfoldable pub try_recv_queue : Plugin e → M e Bool
  unfolding get_module put_module deliver
  try_recv_queue plugin = do
    m ← get_module
    elim (Queue.try_recv m.global_queue) [
      | none ↦ pure false
      | some (command, queue) ↦ do
        put_module (record m { global_queue = queue })
        deliver plugin command
        m ← get_module
        put_module (record m { global_queue = Queue.finish_request m.global_queue })
        pure true
    ]

  -- `while counter <= limit`: the first argument is the number of rounds that are left.
  unfoldable pub execute_loop : Plugin e → ℕ → ℕ → M e ℕ
  unfolding try_recv_queue
  execute_loop plugin zero counter = pure counter
  execute_loop plugin (suc rounds) counter = do
    received ← try_recv_queue plugin
    elim received [ true ↦ execute_loop plugin rounds (counter + 1) | false ↦ pure counter ]

  -- `now` and `stamp` are the two readings of the clock.
  unfoldable pub execute_queue_with_limit : Plugin e → ℕ → ℕ → ℕ → ℕ → M e ℕ
  unfolding get_module put_module execute_loop
  execute_queue_with_limit plugin limit delay now stamp = do
    m ← get_module
    elim (Queue.is_too_early m.global_queue delay now) [
      | true ↦ pure 0
      | false ↦ do
        put_module (record m {
          global_queue = record m.global_queue { last_time_executed_with_limit = some stamp };
        })
        execute_loop plugin (limit + 1) 0
    ]

  -- `min(pending / 500, 1)`
  unfoldable pub multiplier : Queue e → ℕ
  multiplier q = min (q.number_of_pending_requests / 500) 1

  -- `static mut LAST_TIME` is set at the first call.
  unfoldable pub collect_cycles_if_needed : Collector e → ℕ → M e (Unit {0})
  collect_cycles_if_needed collector now w =
      let last : ℕ = elim w.last_collection [ none ↦ now | some t ↦ t ] in
      let w₁ = record w { last_collection = some last } in
      if leb (10 ^ 9) (now - last) && leb 1 (collector.number_of_roots_buffered w₁)
      then collector.collect_cycles (record w { last_collection = some now })
      else pure tt w₁

  -- The warning needs a multiplier above 1. `now`, `stamp` and `last` are readings of the clock.
  unfoldable pub grip_process_request : Plugin e → Collector e → ℕ → ℕ → ℕ → M e (Unit {0})
  unfolding get_module multiplier execute_queue_with_limit collect_cycles_if_needed
  grip_process_request plugin collector now stamp last = do
    m ← get_module
    execute_queue_with_limit plugin
        (m.callbacks_per_frame * multiplier m.global_queue % (2 * e.isize_max + 2))
        (m.microseconds_delay_between_attempts * 1000) now stamp
    collect_cycles_if_needed collector last

  -- The result is the queue that the module held, as the drop leaves it to the worker.
  unfoldable pub grip_deinit : M e (Option (Queue e))
  unfolding dropped_all
  grip_deinit w = elim w.storage [
    | none ↦ pure none w
    | some m ↦ pure (some (Queue.stop (dropped_all m))) (record w { storage = none })
  ]

  unfoldable pub grip_is_initialized : M e Bool
  grip_is_initialized w = pure (is_some w.storage) w
