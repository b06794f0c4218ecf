-- ===== src/Ffi/Frames.antt =====
-- What a frame of `grip_process_request` delivers.
use grip.Common.{
  ℕ, zero, suc, ◌+◌, ◌*◌, ◌/◌, ◌%◌, ◌<◌, ◌-◌, ◌^◌, ◌&&◌, leb, none, min, ◌≡◌, refl, ◌∙◌, Bool, true,
  false, some, List, [], ◌∷◌, take, arith, if◌then◌else◌, ltb, length, All, subst, ap, Bool-cases,
  inl, inr,
}
use native.Mathlib.Nat.{mul-zero, mul-one, zero-mod, mod-eq_of_lt}
use grip.Env.{Env}
use grip.Ffi.World.{World, ModuleStorage, Outcome, done, M, pure, ◌>>◌, and_then}
use grip.Ffi.Ext.{get_module, put_module}
use grip.Queue
use grip.Queue.{Queue, Response, Callback, OutputCommand}
use grip.Ffi.Requests.{
  Plugin, Collector, collect_cycles_if_needed, call_back, deliver, try_recv_queue, execute_loop,
  execute_queue_with_limit, multiplier, grip_process_request,
}
use grip.Ffi.Delivered.{
  Handled, Delivered, Reaction, Reacts, hear, heard, after, after-Delivered, Delivered-none,
  Delivered-more,
}

multiplier_lem : (p : ℕ) → min (p / 500) 1 ≡ (if ltb p 500 then 0 else 1)
multiplier_lem p = ground arith

frame_limit :
    (p c max : ℕ)
    → c < 2 * max + 2
    → c * min (p / 500) 1 % (2 * max + 2) ≡ (if ltb p 500 then 0 else c)
frame_limit p c max h = elim (Bool-cases (ltb p 500)) [
  | inl hit ↦
      rw (multiplier_lem p)
        (rw hit (ap (λ z. z % (2 * max + 2)) (mul-zero c) ∙ zero-mod (2 * max + 2)))
  | inr miss ↦
      rw (multiplier_lem p) (rw miss (ap (λ z. z % (2 * max + 2)) (mul-one c) ∙ mod-eq_of_lt h))
]

module _ {e : Env} (plugin : Plugin e) (react : Reaction e) (reacts : Reacts plugin react) where
  pub receive :
      (w : World e) (m : ModuleStorage e) (c : OutputCommand e) (cs : List (OutputCommand e))
      → w.storage ≡ some m
      → m.global_queue.output ≡ c ∷ cs
      → Handled c
      → try_recv_queue plugin w
        ≡ done true (record w { storage = some (after m c cs); memory = hear react c w.memory })
  unfolding try_recv_queue get_module put_module deliver call_back Queue.try_recv after
  receive w m (OutputCommand.response r callback) cs s o (a, ha) =
      rw (try_recv_queue, s)
        (rw o (rw ha (rw (reacts a callback.forward_id callback.user_data) refl)))
  receive w m (OutputCommand.error x callback) cs s o (a, ha) =
      rw (try_recv_queue, s)
        (rw o (rw ha (rw (reacts a callback.forward_id callback.user_data) refl)))

  pub receive_none :
      (w : World e) (m : ModuleStorage e)
      → w.storage ≡ some m
      → m.global_queue.output ≡ []
      → try_recv_queue plugin w ≡ done false w
  unfolding try_recv_queue get_module Queue.try_recv
  receive_none w m s o = rw (try_recv_queue, s) (rw o refl)

  pub same_world :
      (w : World e) (m : ModuleStorage e) → w.storage ≡ some m → w ≡ record w { storage = some m }
  same_world w m s = ap (λ z. record w { storage = z }) s

  -- The rounds that are left deliver that many results, or all there are.
  Rounds : ℕ → ℕ → World e → ModuleStorage e → List (OutputCommand e) → ℕ → Type 0
  unfolding execute_loop
  Rounds rounds counter w m cs n =
      (m' : ModuleStorage e) × (execute_loop plugin rounds counter w
        ≡ done (counter + n)
            (record w { storage = some m'; memory = heard react (take n cs) w.memory }))
      × Delivered m m' n

  as_Rounds :
      (rounds counter : ℕ) (w : World e) (m : ModuleStorage e) (cs : List (OutputCommand e))
      (n k : ℕ)
      → n ≡ k
      → Rounds rounds counter w m cs n
      → Rounds rounds counter w m cs k
  as_Rounds rounds counter w m cs n k p r = subst (Rounds rounds counter w m cs) p r

  execute_loop-Delivered :
      (rounds counter : ℕ) (w : World e) (m : ModuleStorage e) (cs : List (OutputCommand e))
      → w.storage ≡ some m
      → m.global_queue.output ≡ cs
      → All Handled cs
      → Rounds rounds counter w m cs (min rounds (length cs))
  unfolding execute_loop Rounds
  execute_loop-Delivered zero counter w m cs s o h =
      as_Rounds zero counter w m cs 0 _ (omega arith) (
        m,
        ap (λ z. done z w) (omega arith) ∙ ap (done (counter + 0)) (same_world w m s),
        Delivered-none m,
      )
  execute_loop-Delivered (suc rounds) counter w m [] s o h =
      as_Rounds (suc rounds) counter w m [] 0 _ (omega arith) (
        m,
        rw (execute_loop, receive_none w m s o)
            (ap (λ z. done z w) (omega arith) ∙ ap (done (counter + 0)) (same_world w m s)),
        Delivered-none m,
      )
  execute_loop-Delivered (suc rounds) counter w m (c ∷ cs) s o (hc, h) =
      let m₁ = after m c cs in
      let p = after-Delivered m c cs o in
      let w₁ = record w { storage = some m₁; memory = hear react c w.memory } in
      let (m₂, run, q) =
        execute_loop-Delivered rounds (counter + 1) w₁ m₁ cs refl (p.output ∙ rw o refl) h in
      as_Rounds (suc rounds) counter w m (c ∷ cs) (suc (min rounds (length cs))) _ (omega arith) (
        m₂,
        rw (execute_loop, receive w m c cs s o hc)
            (run
              ∙ ap
                  (λ z. done z (record w {
                    storage = some m₂;
                    memory = heard react (take (suc (min rounds (length cs))) (c ∷ cs)) w.memory;
                  }))
                  (omega arith)),
        Delivered-more m m₁ m₂ c cs (min rounds (length cs)) o p q,
      )

  started : ℕ → World e → ModuleStorage e → World e
  started stamp w m = record w {
    storage = some (record m {
      global_queue = record m.global_queue { last_time_executed_with_limit = some stamp };
    });
  }

  execute-started :
      (limit delay now stamp : ℕ) (w : World e) (m : ModuleStorage e)
      → w.storage ≡ some m
      → Queue.is_too_early m.global_queue delay now ≡ false
      → execute_queue_with_limit plugin limit delay now stamp w
        ≡ execute_loop plugin (limit + 1) 0 (started stamp w m)
  unfolding execute_queue_with_limit get_module put_module started
  execute-started limit delay now stamp w m s early =
      ap (execute_queue_with_limit plugin limit delay now stamp) (same_world w m s)
      ∙ ap
          (λ (b : Bool).
            (elim b as (λ x. M e ℕ) [
              | true ↦ pure 0
              | false ↦
                  put_module (record m {
                    global_queue = record m.global_queue {
                      last_time_executed_with_limit = some stamp;
                    };
                  })
                  >> execute_loop plugin (limit + 1) 0
            ])
              (record w { storage = some m }))
          early

  -- A call that does not come too early.
  execute-Delivered :
      (limit delay now stamp : ℕ) (w : World e) (m : ModuleStorage e)
      → w.storage ≡ some m
      → Queue.is_too_early m.global_queue delay now ≡ false
      → All Handled m.global_queue.output
      → (m' : ModuleStorage e) × (execute_queue_with_limit plugin limit delay now stamp w
          ≡ done (min (limit + 1) (length m.global_queue.output)) (record w {
            storage = some m';
            memory =
                heard react
                  (take (min (limit + 1) (length m.global_queue.output)) m.global_queue.output)
                  w.memory;
          }))
        × Delivered m m' (min (limit + 1) (length m.global_queue.output))
  unfolding Rounds started
  execute-Delivered limit delay now stamp w m s early h =
      let m₁ = record m {
        global_queue = record m.global_queue { last_time_executed_with_limit = some stamp };
      } in
      let (m₂, run, q) =
        execute_loop-Delivered (limit + 1) 0 (record w { storage = some m₁ }) m₁
          m.global_queue.output refl refl h in
      (
        m₂,
        execute-started limit delay now stamp w m s early
            ∙ run
            ∙ ap
                (λ z. done z (record w {
                  storage = some m₂;
                  memory =
                      heard react
                        (take (min (limit + 1) (length m.global_queue.output))
                          m.global_queue.output)
                        w.memory;
                }))
                (omega arith),
        record {
          output = q.output;
          inactive = q.inactive;
          kept = q.kept;
          pending = q.pending;
          response = q.response;
          bodies = q.bodies;
          values = q.values;
          options = q.options;
        },
      )

-- A frame of `grip_process_request` that does not come too early, where every waiting result has a
-- handler, each handler works on the C++ side's memory only, and `callbacks_per_frame` fits a
-- `usize`: with under 500 pending requests one result is delivered, otherwise `callbacks_per_frame`
-- + 1, or all there are if that is fewer. Their handlers are called in the order of the results, each
-- once, with the forward and the data of its request and with its result as the current response.
-- The delivered results leave the channel, their requests are active no more, no request becomes
-- active, the pending count goes down by their number if it is at least that, no response is left
-- current if none was, and the tables of bodies, values and options stay. After that the frame ends
-- as the collector's run does, if the last one was a second or more ago and a root is buffered, and
-- returns otherwise.
pub grip_process_request-Delivered :
    {e : Env} (plugin : Plugin e) (react : Reaction e) (collector : Collector e)
    (now stamp last : ℕ) (w : World e) (m : ModuleStorage e)
    → Reacts plugin react
    → w.storage ≡ some m
    → Queue.is_too_early m.global_queue (m.microseconds_delay_between_attempts * 1000) now ≡ false
    → All Handled m.global_queue.output
    → m.callbacks_per_frame < 2 * e.isize_max + 2
    → let n =
        min
          ((if ltb m.global_queue.number_of_pending_requests 500 then 0 else m.callbacks_per_frame)
            + 1)
          (length m.global_queue.output) in
      let t : ℕ = elim w.last_collection [ none ↦ last | some t ↦ t ] in
      (m' : ModuleStorage e) × (let w₁ = record w {
        storage = some m';
        memory = heard react (take n m.global_queue.output) w.memory;
      } in
        grip_process_request plugin collector now stamp last w ≡ (
          if leb (10 ^ 9) (last - t)
            && leb 1 (collector.number_of_roots_buffered (record w₁ { last_collection = some t }))
          then collector.collect_cycles (record w₁ { last_collection = some last })
          else done tt (record w₁ { last_collection = some t })))
      × Delivered m m' n
unfolding grip_process_request get_module multiplier collect_cycles_if_needed
grip_process_request-Delivered {e} plugin react collector now stamp last w m reacts s early h
      small =
    let limit =
      if ltb m.global_queue.number_of_pending_requests 500 then 0 else m.callbacks_per_frame in
    let delay = m.microseconds_delay_between_attempts * 1000 in
    let w₀ = record w { storage = some m } in
    let (m', run, d) =
      execute-Delivered plugin react reacts limit delay now stamp w₀ m refl early h in
    let n = min (limit + 1) (length m.global_queue.output) in
    let finished : Outcome e ℕ → Outcome e Unit =
      λ o. and_then o (λ n. collect_cycles_if_needed collector last) in
    (
      m',
      ap (grip_process_request plugin collector now stamp last)
            (same_world plugin react reacts w m s)
          ∙ ap (λ n. finished (execute_queue_with_limit plugin n delay now stamp w₀))
              (frame_limit m.global_queue.number_of_pending_requests m.callbacks_per_frame
                e.isize_max small)
          ∙ ap finished run,
      d,
    )
