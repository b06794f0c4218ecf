-- ===== src/Ffi/Timed.antt =====
-- rust/src/networking_queue.rs: `execute_query_with_timeout`, which delivers results for some time.
mod Tests
use grip.Common.{
  ℕ, zero, suc, ◌+◌, ◌-◌, ◌≤◌, ◌<◌, ◌≡◌, refl, ap, ◌∙◌, subst, min, Bool, true, false, Option, none,
  some, List, [], ◌∷◌, take, arith, All, if◌then◌else◌, leb, length,
}
use grip.Env.{Env}
use grip.Ffi.World.{World, ModuleStorage, done, M, pure, ◌>>=◌, ◌>>◌, and_then}
use grip.Queue.{Queue, OutputCommand}
use grip.Ffi.Requests.{Plugin, try_recv_queue}
use grip.Ffi.Delivered.{
  Handled, Delivered, Reaction, Reacts, hear, heard, after, after-Delivered, Delivered-none,
  Delivered-more,
}
use grip.Ffi.Frames.{receive, receive_none, same_world}

-- The loop: `clock` has the readings of the clock in order, `k` is the number of the next one, and
-- the first argument is the number of rounds that are left. `none` if these are not enough.
unfoldable pub query_loop : {e : Env} → Plugin e → (ℕ → ℕ) → ℕ → ℕ → ℕ → ℕ → M e (Option (Unit {0}))
unfolding try_recv_queue
query_loop plugin clock instant timeout zero k = pure none
query_loop plugin clock instant timeout (suc rounds) k =
    let more = try_recv_queue plugin >> query_loop plugin clock instant timeout rounds (k + 1) in
    if leb (clock k - instant) timeout then more else pure (some tt)

-- The sleep between two rounds shows in the readings only.
unfoldable pub execute_query_with_timeout :
    {e : Env} → Plugin e → (ℕ → ℕ) → ℕ → ℕ → M e (Option (Unit {0}))
unfolding query_loop
execute_query_with_timeout plugin clock timeout rounds =
    query_loop plugin clock (clock 0) timeout rounds 1

in_time : (t i timeout : ℕ) → t - i ≤ timeout → leb (t - i) timeout ≡ true
in_time t i timeout h = ground arith

too_late : (t i timeout : ℕ) → timeout < t - i → leb (t - i) timeout ≡ false
too_late t i timeout h = ground arith

module _ {e : Env} (plugin : Plugin e) (react : Reaction e) (reacts : Reacts plugin react)
    (clock : ℕ → ℕ) (instant timeout : ℕ) where
  Rounds : ℕ → ℕ → World e → ModuleStorage e → List (OutputCommand e) → ℕ → Type 0
  unfolding query_loop
  Rounds rounds k w m cs n =
      (m' : ModuleStorage e) × (query_loop plugin clock instant timeout rounds k w
        ≡ done (some tt)
            (record w { storage = some m'; memory = heard react (take n cs) w.memory }))
      × Delivered m m' n

  query_loop-Delivered :
      (n rounds k : ℕ) (w : World e) (m : ModuleStorage e) (cs : List (OutputCommand e))
      → w.storage ≡ some m
      → m.global_queue.output ≡ cs
      → All Handled cs
      → ((j : ℕ) → j < n → clock (k + j) - instant ≤ timeout)
      → timeout < clock (k + n) - instant
      → n < rounds
      → Rounds rounds k w m cs (min n (length cs))
  unfolding query_loop Rounds
  query_loop-Delivered n zero k w m cs s o h early late enough = absurd (omega arith)
  query_loop-Delivered zero (suc rounds) k w m cs s o h early late enough =
      let past : timeout < clock k - instant =
        subst (λ z. timeout < clock z - instant) (omega arith) late in
      subst (Rounds (suc rounds) k w m cs) {x = 0} (omega arith) (
        m,
        rw (too_late (clock k) instant timeout past)
            (ap (done (some tt)) (same_world plugin react reacts w m s)),
        Delivered-none m,
      )
  query_loop-Delivered (suc n) (suc rounds) k w m [] s o h early late enough =
      let soon : clock k - instant ≤ timeout =
        subst (λ z. clock z - instant ≤ timeout) (omega arith) (early 0 (omega arith)) in
      let rest : Rounds rounds (k + 1) w m [] (min n 0) =
        query_loop-Delivered n rounds (k + 1) w m [] s o h
          (λ j l.
            subst (λ z. clock z - instant ≤ timeout) (omega arith) (early (suc j) (omega arith)))
          (subst (λ z. timeout < clock z - instant) (omega arith) late) (omega arith) in
      let (m', run, d) = subst (Rounds rounds (k + 1) w m []) {y = 0} (omega arith) rest in
      subst (Rounds (suc rounds) k w m []) {x = 0} (omega arith) (
        m',
        rw (in_time (clock k) instant timeout soon)
            (rw (query_loop, receive_none plugin react reacts w m s o) run),
        d,
      )
  query_loop-Delivered (suc n) (suc rounds) k w m (c ∷ cs) s o (hc, h) early late enough =
      let soon : clock k - instant ≤ timeout =
        subst (λ z. clock z - instant ≤ timeout) (omega arith) (early 0 (omega arith)) in
      let m₁ = after m c cs in
      let p = after-Delivered m c cs o in
      let w₁ = record w { storage = some m₁; memory = hear react c w.memory } in
      let (m₂, run, q) =
        query_loop-Delivered n rounds (k + 1) w₁ m₁ cs refl (p.output ∙ rw o refl) h
          (λ j l.
            subst (λ z. clock z - instant ≤ timeout) (omega arith) (early (suc j) (omega arith)))
          (subst (λ z. timeout < clock z - instant) (omega arith) late) (omega arith) in
      subst (Rounds (suc rounds) k w m (c ∷ cs)) {x = suc (min n (length cs))} (omega arith) (
        m₂,
        rw (in_time (clock k) instant timeout soon)
            (rw (query_loop, receive plugin react reacts w m c cs s o hc) run),
        Delivered-more m m₁ m₂ c cs (min n (length cs)) o p q,
      )

-- Where every waiting result has a handler and each handler works on the C++ side's memory only: if
-- the first `n` readings of the clock after the start are within the time and the next one is not,
-- then `execute_query_with_timeout` ends in `n` + 1 rounds, having delivered the first `n` results, or
-- all there are if those are fewer: their handlers are called in the order of the results, each
-- once, with the forward and the data of its request and with its result as the current response. The
-- delivered results leave the channel, their requests are active no
-- more, and the tables of bodies, values and options stay.
pub execute_query-Delivered :
    {e : Env} (plugin : Plugin e) (react : Reaction e) (clock : ℕ → ℕ) (timeout n rounds : ℕ)
    (w : World e) (m : ModuleStorage e)
    → Reacts plugin react
    → w.storage ≡ some m
    → All Handled m.global_queue.output
    → ((j : ℕ) → j < n → clock (1 + j) - clock 0 ≤ timeout)
    → timeout < clock (1 + n) - clock 0
    → n < rounds
    → (m' : ModuleStorage e) × (execute_query_with_timeout plugin clock timeout rounds w
        ≡ done (some tt) (record w {
          storage = some m';
          memory =
              heard react
                (take (min n (length m.global_queue.output)) m.global_queue.output)
                w.memory;
        }))
      × Delivered m m' (min n (length m.global_queue.output))
unfolding execute_query_with_timeout Rounds
execute_query-Delivered plugin react clock timeout n rounds w m reacts s h early late enough =
    query_loop-Delivered plugin react reacts clock (clock 0) timeout n rounds 1 w m
      m.global_queue.output s refl h early late enough
