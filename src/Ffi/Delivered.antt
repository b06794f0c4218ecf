-- ===== src/Ffi/Delivered.antt =====
-- What the delivery of results leaves behind in the module.
use grip.Common.{
  ℕ, suc, ◌+◌, ◌*◌, ◌≤◌, ◌≡◌, refl, ◌∙◌, Option, none, some, List, [], ◌∷◌, arith, if◌then◌else◌,
  take, drop, All, subst, ap,
}
use grip.Common.Int.{ℤ, int_eq, int_eq_refl, usize_pred}
use grip.Common.Bytes.{Bytes}
use grip.Errors.{Result, ok, err}
use grip.Env.{Env}
use grip.CellMap.{CellMap, get_with_id, remove_with_id}
use grip.CellMap.Laws.{get-remove}
use grip.Ffi.World.{World, ModuleStorage, Failure, done}
use grip.Queue
use grip.Queue.{Queue, Response, Callback, OutputCommand}
use grip.Ffi.Responses.{drop_sender}
use grip.Ffi.Requests.{Plugin}

abbrev pub callback_of : {e : Env} → OutputCommand e → Callback
callback_of (OutputCommand.response r callback) = callback
callback_of (OutputCommand.error x callback) = callback

-- The C++ side gave a handler with the request.
abbrev pub Handled : {e : Env} → OutputCommand e → Type 0
Handled c = (a : ℕ) × ((callback_of c).handler ≡ some a)

-- `n` results of `m` have been delivered, which left `m'`: they are out of the channel, their
-- requests are no longer active, and an active request was active before.
pub record Delivered {e : Env} (m m' : ModuleStorage e) (n : ℕ) : Type 0 where
  pub output : m'.global_queue.output ≡ drop n m.global_queue.output
  pub inactive :
      All
        (λ c. get_with_id m'.cancellations_handles (callback_of c).next_cancellation_id ≡ none)
        (take n m.global_queue.output)
  pub kept :
      (id : ℤ)
      → get_with_id m.cancellations_handles id ≡ none
      → get_with_id m'.cancellations_handles id ≡ none
  pub pending :
      n ≤ m.global_queue.number_of_pending_requests
      → m'.global_queue.number_of_pending_requests + n ≡ m.global_queue.number_of_pending_requests
  pub response : m.current_response ≡ none → m'.current_response ≡ none
  pub bodies : m'.bodies_handles ≡ m.bodies_handles
  pub values : m'.json_handles ≡ m.json_handles
  pub options : m'.options_handles ≡ m.options_handles

abbrev pub response_of : {e : Env} → OutputCommand e → Result (Response e) (Failure e)
response_of (OutputCommand.response r callback) = ok r
response_of (OutputCommand.error x callback) = err x

abbrev pub Memory : Type 0
Memory = ℕ → Option Bytes

-- What a handler does to the memory of the C++ side, by its address, the forward, the user's data
-- and the response that is current when it is called.
abbrev pub Reaction : Env → Type 0
Reaction e = ℕ → ℤ → ℤ → Option (Result (Response e) (Failure e)) → Memory → Memory

abbrev pub response_now :
    {e : Env} → Option (ModuleStorage e) → Option (Result (Response e) (Failure e))
response_now none = none
response_now (some m) = m.current_response

-- A plugin whose handlers work on the C++ side's memory only.
abbrev pub Reacts : {e : Env} → Plugin e → Reaction e → Type 0
Reacts {e} plugin react =
    (a : ℕ) (f u : ℤ) (w : World e)
    → plugin a f u w ≡ done tt (record w { memory = react a f u (response_now w.storage) w.memory })

-- The memory once the handler of a result has been called with it, and those of several in turn.
abbrev pub hear : {e : Env} → Reaction e → OutputCommand e → Memory → Memory
hear react c memory = elim (callback_of c).handler [
  | none ↦ memory
  | some a ↦
      react a (callback_of c).forward_id (callback_of c).user_data (some (response_of c)) memory
]

abbrev pub heard : {e : Env} → Reaction e → List (OutputCommand e) → Memory → Memory
heard react [] memory = memory
heard react (c ∷ cs) memory = heard react cs (hear react c memory)

-- The module after the result `c` has been delivered and `cs` is left.
unfoldable pub after :
    {e : Env} → ModuleStorage e → OutputCommand e → List (OutputCommand e) → ModuleStorage e
unfolding Queue.finish_request drop_sender remove_with_id
after m c cs =
    let r = remove_with_id m.cancellations_handles (callback_of c).next_cancellation_id in
    let m₁ = drop_sender r.0 (record m {
      global_queue = record m.global_queue { output = cs };
      current_response = some (response_of c);
      cancellations_handles = r.1;
    }) in
    record m₁ { global_queue = Queue.finish_request m₁.global_queue; current_response = none }

-- Dropping a sender touches the queue's list of dropped channels only.
record Dropped {e : Env} (m m' : ModuleStorage e) : Type 0 where
  output : m'.global_queue.output ≡ m.global_queue.output
  count : m'.global_queue.number_of_pending_requests ≡ m.global_queue.number_of_pending_requests
  cancellations : m'.cancellations_handles ≡ m.cancellations_handles
  bodies : m'.bodies_handles ≡ m.bodies_handles
  values : m'.json_handles ≡ m.json_handles
  options : m'.options_handles ≡ m.options_handles

drop_sender-Dropped : {e : Env} (r : Option ℕ) (m : ModuleStorage e) → Dropped m (drop_sender r m)
unfolding drop_sender
drop_sender-Dropped none m = record {
  output = refl;
  count = refl;
  cancellations = refl;
  bodies = refl;
  values = refl;
  options = refl;
}
drop_sender-Dropped (some channel) m = record {
  output = refl;
  count = refl;
  cancellations = refl;
  bodies = refl;
  values = refl;
  options = refl;
}

one_less : (max n k : ℕ) → 1 ≤ n → k ≡ n → usize_pred max k + 1 ≡ n
one_less max n k h p = ground arith

removed-Kept :
    {T : Type 0} (m m' : CellMap T) (k id : ℤ)
    → m' ≡ (remove_with_id m k).1
    → get_with_id m' id ≡ (if int_eq k id then none else get_with_id m id)
removed-Kept m m' k id p = ap (λ z. get_with_id z id) p ∙ get-remove m k id

pub after-Delivered :
    {e : Env} (m : ModuleStorage e) (c : OutputCommand e) (cs : List (OutputCommand e))
    → m.global_queue.output ≡ c ∷ cs
    → Delivered m (after m c cs) 1
unfolding after Queue.finish_request
after-Delivered {e} m c cs o =
    let k = (callback_of c).next_cancellation_id in
    let r = remove_with_id m.cancellations_handles k in
    let m₁ = record m {
      global_queue = record m.global_queue { output = cs };
      current_response = some (response_of c);
      cancellations_handles = r.1;
    } in
    let d = drop_sender-Dropped r.0 m₁ in
    let gone = λ (id : ℤ). removed-Kept m.cancellations_handles _ k id d.cancellations in
    record {
      output = d.output ∙ rw o refl;
      inactive = rw o (gone k ∙ rw (int_eq_refl k) refl, tt);
      kept = λ id n. gone id ∙ ground (arith, n);
      pending =
          λ h. one_less (2 * e.isize_max + 1) m.global_queue.number_of_pending_requests _ h d.count;
      response = λ n. refl;
      bodies = d.bodies;
      values = d.values;
      options = d.options;
    }

pub Delivered-none : {e : Env} (m : ModuleStorage e) → Delivered m m 0
Delivered-none m = record {
  output = refl;
  inactive = tt;
  kept = λ id n. n;
  pending = λ h. omega arith;
  response = λ n. n;
  bodies = refl;
  values = refl;
  options = refl;
}

pub Delivered-more :
    {e : Env} (m m₁ m₂ : ModuleStorage e) (c : OutputCommand e) (cs : List (OutputCommand e))
    (n : ℕ)
    → m.global_queue.output ≡ c ∷ cs
    → Delivered m m₁ 1
    → Delivered m₁ m₂ n
    → Delivered m m₂ (suc n)
Delivered-more {e} m m₁ m₂ c cs n o p q =
    let left : m₁.global_queue.output ≡ cs = p.output ∙ rw o refl in
    let gone =
      subst
        (All
          (λ c. get_with_id m₁.cancellations_handles (callback_of c).next_cancellation_id ≡ none))
        (ap (take 1) o) p.inactive in
    record {
      output = q.output ∙ ap (drop n) left ∙ rw o refl;
      inactive = rw o (
        q.kept (callback_of c).next_cancellation_id gone.0,
        subst
            (λ z.
              All
                (λ c.
                  get_with_id m₂.cancellations_handles (callback_of c).next_cancellation_id ≡ none)
                (take n z))
            left q.inactive,
      );
      kept = λ id h. q.kept id (p.kept id h);
      pending = λ h. omega (arith, p.pending (omega arith), q.pending);
      response = λ h. q.response (p.response h);
      bodies = q.bodies ∙ p.bodies;
      values = q.values ∙ p.values;
      options = q.options ∙ p.options;
    }
