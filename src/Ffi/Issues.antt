-- ===== src/Ffi/Issues.antt =====
-- `grip_request`: the request that is sent, and the handle by which it is cancelled.
use grip.Common.{
  ℕ, ◌+◌, ◌*◌, ◌≤◌, ◌<◌, ◌≡◌, refl, ◌∙◌, true, false, Option, none, some, [], ◌∷◌, ◌++◌, arith, ap,
  if◌then◌else◌, ◌==◌,
}
use grip.Common.Int.{ℤ, pos, int_eq, int_eq_refl}
use grip.Common.Bytes.{Bytes, c_string}
use grip.Utf8.{is_utf8}
use grip.Env.{Env}
use grip.CellMap.{get_with_id, peek_id}
use grip.CellMap.Laws.{IsValid, inserted, insert-eq, get-inserted}
use grip.Ffi.World.{World, ModuleStorage, done}
use grip.Ffi.Ext.{get_module, put_module, try_and_log_ffi, ptr_to_option, c_str}
use grip.Ffi.Handles.{stored}
use grip.Queue
use grip.Queue.{RequestType, RequestOptions, Request, Callback, InputCommand, Queue}
use grip.Ffi.Requests.{request_type_of, or_empty, no_options, grip_request}
use grip.Ffi.Responses.{grip_is_request_active}

-- What the arguments of a call name in the world that it is called in.
pub record Arguments {e : Env} (w : World e) (m : ModuleStorage e) (uri : ℕ)
    (body_handle request_type options_handle : ℤ) : Type 0 where
  pub http_type : RequestType
  pub memory : Bytes
  pub text : Bytes
  pub url : e.Url
  pub body : Bytes
  pub options : RequestOptions e
  pub storage : w.storage ≡ some m
  pub typed : request_type_of request_type ≡ some http_type
  pub pointer : (uri == 0) ≡ false
  pub pointed : w.memory uri ≡ some memory
  pub ended : c_string memory ≡ some text
  pub utf8 : is_utf8 text ≡ true
  pub parsed : e.parse_url text ≡ some url
  pub found : or_empty (get_with_id m.bodies_handles body_handle) body_handle [] ≡ some body
  pub chosen :
      or_empty (get_with_id m.options_handles options_handle) options_handle (no_options e)
      ≡ some options

-- The queue of `m` after the request has been sent, and the command that is new in it.
pub record Sent {e : Env} (m m' : ModuleStorage e) (id : ℤ) (r : Request e) (callback : Callback)
    : Type 0 where
  pub sends :
      m'.global_queue.sends
      ≡ m.global_queue.sends ++ InputCommand.request m.global_queue.channels r callback ∷ []
  pub pending :
      m.global_queue.number_of_pending_requests < 2 * e.isize_max + 1
      → m'.global_queue.number_of_pending_requests ≡ m.global_queue.number_of_pending_requests + 1
  pub announced : callback.next_cancellation_id ≡ id
  pub unused : get_with_id m.cancellations_handles id ≡ none
  pub sender :
      (j : ℤ)
      → get_with_id m'.cancellations_handles j ≡ (
          if int_eq id j
          then some m.global_queue.channels
          else get_with_id m.cancellations_handles j)

pub c_str-read :
    {e : Env} (w : World e) (p : ℕ) (memory text : Bytes)
    → (p == 0) ≡ false
    → w.memory p ≡ some memory
    → c_string memory ≡ some text
    → c_str p w ≡ done text w
unfolding c_str
c_str-read w p memory text n q t = rw (c_str, n) (rw q (rw t refl))

-- A call of `grip_request` whose arguments are in order returns, while handles are left, a handle
-- that was not in use and that the sent callback carries. The command, with the type, address, body
-- and options that the arguments name, goes behind those already sent, and the pending count goes
-- up by one unless it is the largest `usize`. The handle leads to the sender of its channel, every
-- other handle to what it led to, and `grip_is_request_active` of the handle is 1.
pub request-Sent :
    {e : Env} (w : World e) (m : ModuleStorage e) (n : ℕ) (forward_id : ℤ) (uri : ℕ)
    (body_handle request_type : ℤ) (handler : Option ℕ) (options_handle user_data : ℤ)
    (given : Arguments w m uri body_handle request_type options_handle)
    → IsValid n m.cancellations_handles
    → n ≤ e.isize_max
    → (m' : ModuleStorage e) × (grip_request forward_id uri body_handle request_type handler
          options_handle user_data w
        ≡ done (pos n) (record w { storage = some m' }))
      × Sent m m'
          (pos n)
          (record {
            http_type = given.http_type;
            uri = given.url;
            body = given.body;
            options = given.options;
          })
          (record {
            handler = handler;
            forward_id = forward_id;
            user_data = user_data;
            next_cancellation_id = pos n;
          })
      × (grip_is_request_active (pos n) (record w { storage = some m' })
          ≡ done (pos 1) (record w { storage = some m' }))
unfolding grip_request try_and_log_ffi get_module put_module ptr_to_option c_str Queue.send_request
    Queue.send_input_command peek_id grip_is_request_active
request-Sent {e} w m n forward_id uri body_handle request_type handler options_handle user_data
      given v small =
    let callback : Callback = record {
      handler = handler;
      forward_id = forward_id;
      user_data = user_data;
      next_cancellation_id = pos n;
    } in
    let r : Request e = record {
      http_type = given.http_type;
      uri = given.url;
      body = given.body;
      options = given.options;
    } in
    let sent = Queue.send_request m.global_queue r callback in
    let handles = inserted e.isize_max m.cancellations_handles m.global_queue.channels in
    let m' = record m { global_queue = sent.1; cancellations_handles = handles } in
    let after_sending : ℤ → World e = λ z. record w {
      storage = some (record m {
        global_queue =
            (Queue.send_request m.global_queue r (record callback { next_cancellation_id = z })).1;
        cancellations_handles = handles;
      });
    } in
    let active : get_with_id handles (pos n) ≡ some m.global_queue.channels =
      get-inserted e.isize_max n m.cancellations_handles m.global_queue.channels (pos n) v
      ∙ rw (int_eq_refl (pos n)) refl in
    (
      m',
      ap (grip_request forward_id uri body_handle request_type handler options_handle user_data)
            (stored w m given.storage)
          ∙ rw (grip_request, given.typed)
              (rw (grip_request, given.pointer)
                (rw
                  (
                    grip_request,
                    c_str-read (record w { storage = some m }) uri given.memory given.text
                        given.pointer given.pointed given.ended,
                  )
                  (rw (grip_request, given.utf8)
                    (rw (grip_request, given.found)
                      (rw (grip_request, given.chosen)
                        (rw (grip_request, given.parsed)
                          (rw
                            (
                              grip_request,
                              insert-eq e.isize_max n m.cancellations_handles
                                  m.global_queue.channels v small,
                            )
                            (ap (λ z. done (pos n) (after_sending z)) v.counter)))))))),
      record {
        sends = refl;
        pending = λ l. ground arith;
        announced = refl;
        unused = v.fresh n (omega arith);
        sender =
            λ j. get-inserted e.isize_max n m.cancellations_handles m.global_queue.channels j v;
      },
      rw (grip_is_request_active, active) refl,
    )
