-- ===== src/Queue.antt =====
-- rust/src/networking_queue.rs: the types, and what the game's thread does with a queue. The
-- worker thread and the executor move a command from `sends` (a spawned send that has not run) to
-- `input` (the channel), start a task for it, and put the task's result into `output` (the channel
-- back): Worker.
pub mod Worker
pub mod Accounts
pub mod Pending
pub mod Bags
pub mod Origins
pub mod Drains
mod Tests
use grip.Common.{ℕ, ◌+◌, ◌*◌, ◌-◌, Bool, true, false, Option, none, some, List, [], ◌∷◌, ◌++◌, leb}
use grip.Common.Int.{ℤ, usize_suc, usize_pred}
use grip.Common.Bytes.{Bytes}
use grip.Errors.{Error}
use grip.Env.{Env}

pub data RequestType : Type 0 where
  get post put delete : RequestType

-- A `Duration` is a number of nanoseconds.
pub record RequestOptions (e : Env) : Type 0 where
  pub headers : e.HeaderMap
  pub timeout : Option ℕ

pub record Request (e : Env) : Type 0 where
  pub http_type : RequestType
  pub uri : e.Url
  pub body : Bytes
  pub options : RequestOptions e

pub record Response (e : Env) : Type 0 where
  pub base_request : Request e
  pub body : Bytes
  pub status_code : ℕ

-- The closure that `grip_request` hands over, by what it captures. The handler is a function of
-- the C++ side, by its address; `none` is the null pointer.
pub record Callback : Type 0 where
  pub handler : Option ℕ
  pub forward_id : ℤ
  pub user_data : ℤ
  pub next_cancellation_id : ℤ

-- A `oneshot` channel is a number: its receiver is in the command, its sender in the
-- `RequestCancellation`.
pub data InputCommand (e : Env) : Type 0 where
  request : ℕ → Request e → Callback → InputCommand e
  quit : InputCommand e

pub data OutputCommand (e : Env) : Type 0 where
  response : Response e → Callback → OutputCommand e
  error : Error e.HttpError e.JsonError → Callback → OutputCommand e

pub record Queue (e : Env) : Type 0 where
  pub working_thread : Bool
  pub sends : List (InputCommand e)
  pub input : List (InputCommand e)
  pub output : List (OutputCommand e)
  pub channels : ℕ
  pub dropped : List ℕ
  pub last_time_executed_with_limit : Option ℕ
  pub number_of_pending_requests : ℕ

module _ {e : Env} where
  unfoldable pub new : Queue e
  new = record {
    working_thread = true;
    sends = [];
    input = [];
    output = [];
    channels = 0;
    dropped = [];
    last_time_executed_with_limit = none;
    number_of_pending_requests = 0;
  }

  unfoldable pub send_input_command : Queue e → InputCommand e → Queue e
  send_input_command q c = record q {
    number_of_pending_requests = usize_suc (2 * e.isize_max + 1) q.number_of_pending_requests;
    sends = q.sends ++ c ∷ [];
  }

  -- The result is the sender's half of the new channel.
  unfoldable pub send_request : Queue e → Request e → Callback → ℕ × Queue e
  unfolding send_input_command
  send_request q r callback =
      let channel = q.channels in
      (
        channel,
        send_input_command (record q { channels = channel + 1 }) (request channel r callback),
      )

  -- The join of the worker thread is not modelled: `stop` returns once the thread has ended.
  unfoldable pub stop : Queue e → Queue e
  unfolding send_input_command
  stop q = record (send_input_command q quit) { working_thread = false }

  -- `response_receiver.try_recv()`.
  unfoldable pub try_recv : Queue e → Option (OutputCommand e × Queue e)
  try_recv q = elim q.output [ [] ↦ none | c ∷ cs ↦ some (c, record q { output = cs }) ]

  -- `number_of_pending_requests -= 1`
  unfoldable pub finish_request : Queue e → Queue e
  finish_request q = record q {
    number_of_pending_requests = usize_pred (2 * e.isize_max + 1) q.number_of_pending_requests;
  }

  -- Whether a call at the time `now` comes too early after the last one.
  unfoldable pub is_too_early : Queue e → ℕ → ℕ → Bool
  is_too_early q delay now = elim q.last_time_executed_with_limit [
    | none ↦ false
    | some last ↦ leb (now - last) delay
  ]
