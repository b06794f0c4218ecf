-- ===== src/Queue/Worker.antt =====
-- rust/src/networking_queue.rs: the worker thread of `Queue::new` and the tasks that it starts,
-- beside the game's thread. The steps are taken in any order. What a server answers is a parameter.
use grip.Common.{
  ℕ, suc, ◌+◌, ◌*◌, ◌^◌, ◌≤◌, ◌≡◌, Bool, true, false, none, some, List, [], ◌∷◌, ◌++◌,
}
use mathlib.Core.List.{Mem}
use grip.Common.Bytes.{Bytes}
use grip.Errors.{Result, ok, err, Error}
use grip.Env.{Env}
use grip.Queue
use grip.Queue.{RequestType, Request, Response, Callback, InputCommand, OutputCommand, Queue}

-- The methods of the HTTP client.
pub data Method : Type 0 where
  post get delete put : Method

unfoldable pub method_of : RequestType → Method
method_of RequestType.post = Method.post
method_of RequestType.get = Method.get
method_of RequestType.delete = Method.delete
method_of RequestType.put = Method.put

-- What can come back from the servers: a body and a status code, or an error of the client.
abbrev pub Server : Env → Type 1
Server e = Method → e.Url → Bytes → e.HeaderMap → Result (Bytes × ℕ) e.HttpError → Type 0

-- A spawned task, which was started at some time in nanoseconds.
pub record Task (e : Env) : Type 0 where
  pub channel : ℕ
  pub request : Request e
  pub callback : Callback
  pub started : ℕ

-- The `enum State` that a task ends in.
pub data State (e : Env) : Type 0 where
  successful : Bytes → ℕ → State e
  failed : Error e.HttpError e.JsonError → State e
  canceled : State e
  timeout : State e

-- A request as it was sent, and when.
pub record Sent (e : Env) : Type 0 where
  pub channel : ℕ
  pub request : Request e
  pub callback : Callback
  pub time : ℕ

-- `accepting` until the stream of commands has ended. `unfinished` counts the received results whose
-- callback still runs. The last three fields are history: the requests that were sent, the results
-- that were received, and the commands that never give one.
pub record System (e : Env) : Type 0 where
  pub queue : Queue e
  pub tasks : List (Task e)
  pub accepting : Bool
  pub now : ℕ
  pub unfinished : ℕ
  pub sent : List (Sent e)
  pub delivered : List (OutputCommand e)
  pub lost : List (InputCommand e)

module _ {e : Env} where
  -- `.timeout(request.options.timeout.unwrap_or_else(|| Duration::new(u16::MAX, 0)))`
  unfoldable pub patience : Request e → ℕ
  patience r = elim r.options.timeout [ none ↦ 65535 * 10 ^ 9 | some t ↦ t ]

  -- What the end of a task sends back.
  unfoldable pub output_of : Task e → State e → OutputCommand e
  output_of t (State.successful body status_code) =
      OutputCommand.response
        (record { base_request = t.request; body = body; status_code = status_code }) t.callback
  output_of t (State.failed x) = OutputCommand.error x t.callback
  output_of t State.canceled = OutputCommand.error Error.request_cancelled t.callback
  output_of t State.timeout = OutputCommand.error Error.request_timeout t.callback

  -- The worker's stream at one command, with the commands behind it.
  unfoldable pub take_command : System e → InputCommand e → List (InputCommand e) → System e
  take_command s InputCommand.quit rest = record s {
    queue = record s.queue { input = rest };
    accepting = false;
    lost = InputCommand.quit ∷ s.lost;
  }
  take_command s (InputCommand.request channel r callback) rest = record s {
    queue = record s.queue { input = rest };
    tasks =
        s.tasks
        ++ record { channel = channel; request = r; callback = callback; started = s.now } ∷ [];
  }

  -- The game's thread: a request is sent, a result is received, the queue is dropped.
  unfoldable pub send : System e → Request e → Callback → System e
  unfolding Queue.send_request
  send s r callback = record s {
    queue = (Queue.send_request s.queue r callback).1;
    sent =
        record { channel = s.queue.channels; request = r; callback = callback; time = s.now }
        ∷ s.sent;
  }

  unfoldable pub receive : System e → OutputCommand e → List (OutputCommand e) → System e
  receive s c rest = record s {
    queue = record s.queue { output = rest };
    unfinished = s.unfinished + 1;
    delivered = c ∷ s.delivered;
  }

  unfoldable pub start : Queue e → System e
  start q = record {
    queue = q;
    tasks = [];
    accepting = true;
    now = 0;
    unfinished = 0;
    sent = [];
    delivered = [];
    lost = [];
  }

module _ {e : Env} (server : Server e) where
  -- How a task of the system can end. Its channel is ready when the sender has been dropped.
  pub data Ended (s : System e) (t : Task e) : State e → Type 0 where
    answered :
        (body : Bytes) (status_code : ℕ)
        → server
            (method_of t.request.http_type)
            t.request.uri
            t.request.body
            t.request.options.headers
            (ok (body, status_code))
        → Ended s t (State.successful body status_code)
    refused :
        (x : e.HttpError)
        → server
            (method_of t.request.http_type)
            t.request.uri
            t.request.body
            t.request.options.headers
            (err x)
        → Ended s t (State.failed (Error.http x))
    dropped : Mem t.channel s.queue.dropped → Ended s t State.canceled
    expired : t.started + patience t.request ≤ s.now → Ended s t State.timeout

  -- The worker and the executor. A spawned send may run before an earlier one. Once the stream has
  -- ended the runtime is dropped, and with it what was left.
  pub data Work (s : System e) : System e → Type 0 where
    push :
        (before after : List (InputCommand e)) (c : InputCommand e)
        → s.queue.sends ≡ before ++ c ∷ after
        → Work s (record s {
          queue = record s.queue { sends = before ++ after; input = s.queue.input ++ c ∷ [] };
        })
    take :
        (c : InputCommand e) (rest : List (InputCommand e))
        → s.accepting ≡ true
        → s.queue.input ≡ c ∷ rest
        → Work s (take_command s c rest)
    finish :
        (before after : List (Task e)) (t : Task e) (r : State e)
        → s.tasks ≡ before ++ t ∷ after
        → Ended s t r
        → Work s (record s {
          queue = record s.queue { output = s.queue.output ++ output_of t r ∷ [] };
          tasks = before ++ after;
        })

  pub data Step (s : System e) : System e → Type 0 where
    work : {s' : System e} → Work s s' → Step s s'
    tick : (n : ℕ) → Step s (record s { now = s.now + n })
    submit :
        (r : Request e) (callback : Callback)
        → s.queue.working_thread ≡ true
        → Step s (send s r callback)
    cancel :
        (channel : ℕ)
        → Step s (record s { queue = record s.queue { dropped = channel ∷ s.queue.dropped } })
    deliver :
        (c : OutputCommand e) (rest : List (OutputCommand e))
        → s.queue.output ≡ c ∷ rest
        → Step s (receive s c rest)
    settle :
        (n : ℕ)
        → s.unfinished ≡ suc n
        → Step s (record s { queue = Queue.finish_request s.queue; unfinished = n })
    stop : s.queue.working_thread ≡ true → Step s (record s { queue = Queue.stop s.queue })
    lose_send :
        (before after : List (InputCommand e)) (c : InputCommand e)
        → s.accepting ≡ false
        → s.queue.sends ≡ before ++ c ∷ after
        → Step s
            (record s { queue = record s.queue { sends = before ++ after }; lost = c ∷ s.lost })
    lose_input :
        (c : InputCommand e) (rest : List (InputCommand e))
        → s.accepting ≡ false
        → s.queue.input ≡ c ∷ rest
        → Step s (record s { queue = record s.queue { input = rest }; lost = c ∷ s.lost })
    lose_task :
        (before after : List (Task e)) (t : Task e)
        → s.accepting ≡ false
        → s.tasks ≡ before ++ t ∷ after
        → Step s (record s {
          tasks = before ++ after;
          lost = InputCommand.request t.channel t.request t.callback ∷ s.lost;
        })

  -- What can come of a new queue.
  pub data Reach : System e → Type 0 where
    begin : Reach (start Queue.new)
    later : {s s' : System e} → Reach s → Step s s' → Reach s'
