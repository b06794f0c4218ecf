-- ===== src/Ffi/Safe/Frames.antt =====
-- The requests, the frames and the end of the module (rust/src/ffi/mod.rs) keep a sound world.
use grip.Common.{
  Bool-cases, inl, inr, leb, ◌-◌, ◌^◌, ◌&&◌, ℕ, zero, suc, ◌+◌, ◌*◌, ◌%◌, Bool, true, false, Option,
  none, some, [],
}
use grip.Common.Int.{ℤ}
use grip.Errors.{Result, ok, err, Message}
use grip.Env.{Env}
use grip.CellMap.{get_with_id, remove_with_id, insert_with_unique_id, peek_id}
use grip.Ffi.World.{◌>>=◌, ◌>>◌, and_then, World, ModuleStorage, Failure, M, pure, unwrap}
use grip.Ffi.Ext.{get_module, put_module, chain_err, to_str}
use grip.Queue
use grip.Queue.{Request, Response, Callback, OutputCommand, Queue}
use grip.Ffi.Responses.{drop_sender}
use grip.Ffi.Requests.{
  Plugin, Collector, collect_cycles_if_needed, request_type_of, or_empty, no_options, grip_request,
  call_back, deliver, try_recv_queue, execute_loop, execute_queue_with_limit, multiplier,
  grip_process_request, grip_deinit,
}
use grip.Ffi.Safe.{
  Fine, Sound, Onward-trans, Any, Fine-pure, Fine-bind, Ends, Ends-bind, Ends-then, Fine-Ends,
}
use grip.Ffi.Safe.Macros.{
  Owned, Owned-Onward, get_module-Fine, put_module-Fine, try_and_log_ffi-Fine, c_str-Fine,
  unwrap-Fine,
}
use grip.Ffi.Safe.Arrays.{exported-Ends}
use grip.Ffi.Safe.Module.{Checked, Checked-Onward, Checked-Fine, drop_sender-Owned}

module _ {e : Env} where
  -- The queue with the request, and then the handle of its cancellation.
  enlisted-Fine :
      {w : World e} (m : ModuleStorage e) (sent : ℕ × Queue e)
      → Sound w
      → Owned m w
      → Fine w Any (
          and_then (put_module (record m { global_queue = sent.1 }) w) λ _. get_module >>= λ n.
          unwrap (insert_with_unique_id e.isize_max n.cancellations_handles sent.0) >>= λ x.
          put_module (record n { cancellations_handles = x.1 }) >> pure x.0)
  enlisted-Fine m sent s h =
      Fine-bind {f = λ _. _} (put_module-Fine (record m { global_queue = sent.1 }) s h)
        λ _ v sv g q. Fine-bind (get_module-Fine sv) λ n u su k r.
          Fine-bind
            (unwrap-Fine (insert_with_unique_id e.isize_max n.cancellations_handles sent.0) su)
            λ x y sy i z.
              Fine-bind {f = λ _. pure x.0}
                (put_module-Fine (record n { cancellations_handles = x.1 }) sy
                  (Owned-Onward n i (su.handles n r)))
                λ _ t st j p. Fine-pure st tt

  pub grip_request-Ends :
      (w : World e) (forward_id : ℤ) (uri : ℕ) (body request_type : ℤ) (handler : Option ℕ)
      (options user_data : ℤ)
      → Sound w
      → Checked uri w
      → Ends (grip_request forward_id uri body request_type handler options user_data w)
  unfolding grip_request
  grip_request-Ends w forward_id uri body request_type handler options user_data s r =
      exported-Ends {Q = Any} (
        Fine-bind
          (try_and_log_ffi-Fine
            (chain_err (request_type_of request_type) (Message.invalid_request_type request_type))
            s)
          λ t v sv g q.
            Fine-bind (Checked-Fine uri Message.invalid_uri sv (Checked-Onward g r))
              λ p v₁ s₁ g₁ r₁. Fine-bind (c_str-Fine s₁ r₁) λ c v₂ s₂ g₂ q₂.
                Fine-bind (try_and_log_ffi-Fine (to_str c Message.uri_not_utf8) s₂)
                  λ text v₃ s₃ g₃ q₃. Fine-bind (get_module-Fine s₃) λ m v₄ s₄ g₄ q₄.
                    Fine-bind
                      (try_and_log_ffi-Fine
                        (chain_err (or_empty (get_with_id m.bodies_handles body) body [])
                          (Message.invalid_body body))
                        s₄)
                      λ b v₅ s₅ g₅ q₅.
                        Fine-bind
                          (try_and_log_ffi-Fine
                            (chain_err
                              (or_empty (get_with_id m.options_handles options) options
                                (no_options e))
                              (Message.invalid_options options))
                            s₅)
                          λ o v₆ s₆ g₆ q₆.
                            Fine-bind
                              (try_and_log_ffi-Fine
                                (chain_err (e.parse_url text) (Message.uri_parsing text)) s₆)
                              λ url v₇ s₇ g₇ q₇.
                                let request : Request e = record {
                                  http_type = t;
                                  uri = url;
                                  body = b;
                                  options = o;
                                } in
                                let callback : Callback = record {
                                  handler = handler;
                                  forward_id = forward_id;
                                  user_data = user_data;
                                  next_cancellation_id = peek_id m.cancellations_handles;
                                } in
                                let sent = Queue.send_request m.global_queue request callback in
                                enlisted-Fine m sent s₇ (
                                  Owned-Onward m (Onward-trans g₅ (Onward-trans g₆ g₇))
                                    (s₄.handles m q₄)))

  -- A test, and an `if let`.
  Ends-bool :
      {A : Type 0} (f g : M e A) (b : Bool) (w : World e)
      → Ends (f w)
      → Ends (g w)
      → Ends ((elim b as (λ x. M e A) [ true ↦ f | false ↦ g ]) w)
  Ends-bool f g true w p q = p
  Ends-bool f g false w p q = q

  Ends-option :
      {A B : Type 0} (f : A → M e B) (g : M e B) (o : Option A) (w : World e)
      → ((a : A) → Ends (f a w))
      → Ends (g w)
      → Ends ((elim o as (λ x. M e B) [ none ↦ g | some a ↦ f a ]) w)
  Ends-option f g none w p q = q
  Ends-option f g (some a) w p q = p a

  -- The collector leaves a sound world, or panics in one.
  abbrev pub Collects : Collector e → Type 0
  Collects collector = (w : World e) → Sound w → Ends (collector.collect_cycles w)

  noted-Sound : {w : World e} (t : Option ℕ) → Sound w → Sound (record w { last_collection = t })
  noted-Sound t s = record { heap = s.heap; handles = s.handles }

  collect-Ends :
      (collector : Collector e) (now : ℕ) (w : World e)
      → Collects collector
      → Sound w
      → Ends (collect_cycles_if_needed collector now w)
  unfolding collect_cycles_if_needed
  collect-Ends collector now w c s =
      let last : ℕ = elim w.last_collection [ none ↦ now | some t ↦ t ] in
      elim (Bool-cases (
        leb (10 ^ 9) (now - last)
        && leb 1 (collector.number_of_roots_buffered (record w { last_collection = some last })))) [
          | inl due ↦ rw due (c _ (noted-Sound (some now) s))
          | inr not_due ↦ rw not_due (Ends.goes (noted-Sound (some last) s))
        ]

  -- The handlers of the C++ side: each leaves a sound world, whatever else it does.
  abbrev pub Keeps : Plugin e → Type 0
  Keeps plugin =
      (handler : ℕ) (forward user_data : ℤ) (w : World e)
      → Sound w
      → Ends (plugin handler forward user_data w)

  module _ (plugin : Plugin e) (keeps : Keeps plugin) where
    call_back-Ends :
        (callback : Callback) (response : Result (Response e) (Failure e)) (w : World e)
        → Sound w
        → Ends (call_back plugin callback response w)
    unfolding call_back
    call_back-Ends callback response w s = Ends-bind (get_module-Fine s) λ m v sv g q.
        Ends-bind
          (put_module-Fine (record m { current_response = some response }) sv (sv.handles m q))
          λ _ v₁ s₁ g₁ q₁. Ends-bind (unwrap-Fine callback.handler s₁) λ handler v₂ s₂ g₂ q₂.
            Ends-then (keeps handler callback.forward_id callback.user_data v₂ s₂) λ _ v₃ s₃.
              Ends-bind (get_module-Fine s₃) λ m₁ v₄ s₄ g₄ q₄.
                let removed =
                  remove_with_id m₁.cancellations_handles callback.next_cancellation_id in
                let m₂ = record m₁ { cancellations_handles = removed.1 } in
                Ends-bind
                  (put_module-Fine (drop_sender removed.0 m₂) s₄
                    (drop_sender-Owned v₄ removed.0 m₂ (s₄.handles m₁ q₄)))
                  λ _ v₅ s₅ g₅ q₅. Ends-bind (get_module-Fine s₅) λ m₃ v₆ s₆ g₆ q₆.
                    Fine-Ends (
                      put_module-Fine (record m₃ { current_response = none }) s₆ (s₆.handles m₃ q₆))

    deliver-Ends : (c : OutputCommand e) (w : World e) → Sound w → Ends (deliver plugin c w)
    unfolding deliver
    deliver-Ends (OutputCommand.response r callback) w s = call_back-Ends callback (ok r) w s
    deliver-Ends (OutputCommand.error x callback) w s = call_back-Ends callback (err x) w s

    try_recv_queue-Ends : (w : World e) → Sound w → Ends (try_recv_queue plugin w)
    unfolding try_recv_queue
    try_recv_queue-Ends w s = Ends-bind (get_module-Fine s) λ m v sv g q.
        Ends-option _ _ (Queue.try_recv m.global_queue) v
          (λ p.
            Ends-bind {f = λ _. _}
              (put_module-Fine (record m { global_queue = p.1 }) sv (sv.handles m q))
              λ _ v₁ s₁ g₁ q₁. Ends-then {f = λ _. _} (deliver-Ends p.0 v₁ s₁) λ _ v₂ s₂.
                Ends-bind (get_module-Fine s₂) λ m₁ v₃ s₃ g₃ q₃.
                  Ends-bind {f = λ _. pure true}
                    (put_module-Fine
                      (record m₁ { global_queue = Queue.finish_request m₁.global_queue }) s₃
                      (s₃.handles m₁ q₃))
                    λ _ v₄ s₄ g₄ q₄. Ends.goes s₄)
          (Ends.goes sv)

    execute_loop-Ends :
        (rounds counter : ℕ) (w : World e) → Sound w → Ends (execute_loop plugin rounds counter w)
    unfolding execute_loop
    execute_loop-Ends zero counter w s = Ends.goes s
    execute_loop-Ends (suc rounds) counter w s =
        Ends-then (try_recv_queue-Ends w s) λ received v sv.
          Ends-bool _ _ received v (execute_loop-Ends rounds (counter + 1) v sv) (Ends.goes sv)

    execute-Ends :
        (limit delay now stamp : ℕ) (w : World e)
        → Sound w
        → Ends (execute_queue_with_limit plugin limit delay now stamp w)
    unfolding execute_queue_with_limit
    execute-Ends limit delay now stamp w s = Ends-bind (get_module-Fine s) λ m v sv g q.
        Ends-bool _ _ (Queue.is_too_early m.global_queue delay now) v (Ends.goes sv) (
          Ends-bind {f = λ _. execute_loop plugin (limit + 1) 0}
            (put_module-Fine
              (record m {
                global_queue = record m.global_queue { last_time_executed_with_limit = some stamp };
              })
              sv (sv.handles m q))
            λ _ u su h k. execute_loop-Ends (limit + 1) 0 u su)

    pub grip_process_request-Ends :
        (collector : Collector e) (now stamp last : ℕ) (w : World e)
        → Collects collector
        → Sound w
        → Ends (grip_process_request plugin collector now stamp last w)
    unfolding grip_process_request
    grip_process_request-Ends collector now stamp last w c s =
        Ends-bind (get_module-Fine s) λ m v sv g q.
          Ends-then {f = λ _. collect_cycles_if_needed collector last}
            (execute-Ends
              (m.callbacks_per_frame * multiplier m.global_queue % (2 * e.isize_max + 2))
              (m.microseconds_delay_between_attempts * 1000) now stamp v sv)
            λ _ u su. collect-Ends collector last u c su

  pub grip_deinit-Ends : (w : World e) → Sound w → Ends (grip_deinit w)
  unfolding grip_deinit
  grip_deinit-Ends w s = go w.storage
    where
      absent : Sound (record w { storage = none })
      absent = record { heap = s.heap; handles = λ m q. absurd cc }

      go : (o : Option (ModuleStorage e)) → Ends (grip_deinit (record w { storage = o }))
      go none = Ends.goes absent
      go (some m) = Ends.goes absent
