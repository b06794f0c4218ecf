-- ===== src/Queue/Tests.antt =====
-- A request from its sending to its callback, and the theorems there.
use grip.Common.{ℕ, ◌+◌, ◌*◌, ◌%◌, ◌≤◌, ◌≡◌, refl, true, none, some, [], ◌∷◌, All}
use grip.Common.Int.{pos}
use grip.Errors.{ok, err}
use grip.Env.Sample.{sample_env}
use grip.Queue
use grip.Queue.{RequestType, Request, Response, Callback, InputCommand, OutputCommand, Queue}
use grip.Queue.Worker.{
  Server, Task, State, System, output_of, take_command, send, receive, start, answered, Work, Reach,
  push, take, finish, work, submit, deliver, begin, later,
}
use grip.Queue.Accounts.{sum, weigh, of_sent, of_output, in_flight}
use grip.Queue.Pending.{pending_lem, callbacks_conserved}
use grip.Queue.Bags.{silent, event_of, Promise, waiting, Step-Promise}
use grip.Queue.Origins.{Justified, delivered-Justified}
use grip.Queue.Drains.{Runs, here, worked, distance, Runs-distance, all_answered}

-- Every request is answered by an empty body and the status 200.
abbrev server : Server sample_env
server method uri body headers (ok (answer, status_code)) = (answer ≡ []) × (status_code ≡ 200)
server method uri body headers (err x) = ⊥

abbrev request : Request sample_env
request = record {
  http_type = RequestType.get;
  uri = b'h' ∷ [];
  body = [];
  options = record { headers = []; timeout = none };
}

abbrev callback : Callback
callback = record {
  handler = some 9;
  forward_id = pos 1;
  user_data = pos 2;
  next_cancellation_id = pos 1;
}

-- The request has been sent; it is in the channel; its task runs; its result waits.
abbrev sent : System sample_env
unfolding send start Queue.new
sent = send (start Queue.new) request callback

sent-Reach : Reach server sent
unfolding send start Queue.new
sent-Reach = later begin (submit request callback refl)

pending_lem_example : sent.queue.number_of_pending_requests ≡ 1 % (2 * 0x7fff_ffff + 2)
unfolding send start Queue.new Queue.send_request
pending_lem_example = pending_lem server sent sent-Reach refl

abbrev in_channel : System sample_env
in_channel = record sent {
  queue = record sent.queue { sends = []; input = InputCommand.request 0 request callback ∷ [] };
}

pushed : Work server sent in_channel
unfolding send start Queue.new Queue.send_request
pushed = push [] [] (InputCommand.request 0 request callback) refl

abbrev running : System sample_env
unfolding take_command
running = take_command in_channel (InputCommand.request 0 request callback) []

abbrev task : Task sample_env
task = record { channel = 0; request = request; callback = callback; started = 0 }

abbrev answer : OutputCommand sample_env
answer =
    OutputCommand.response (record { base_request = request; body = []; status_code = 200 })
      callback

abbrev ended : System sample_env
ended = record running { queue = record running.queue { output = answer ∷ [] }; tasks = [] }

abbrev received : System sample_env
unfolding receive
received = receive ended answer []

received-Reach : Reach server received
unfolding send start Queue.new Queue.send_request take_command receive output_of
received-Reach =
    later
      (later
        (later (later sent-Reach (work pushed))
          (work (take (InputCommand.request 0 request callback) [] refl refl)))
        (work (finish [] [] task (State.successful [] 200) refl (answered [] 200 (refl, refl)))))
      (deliver answer [] refl)

abbrev as_one : Callback → ℕ
as_one c = 1

callbacks_conserved_example :
    sum (of_sent (weigh as_one)) received.sent
    ≡ in_flight (weigh as_one) received + sum (of_output (weigh as_one)) received.delivered
unfolding send start Queue.new Queue.send_request take_command receive
callbacks_conserved_example = callbacks_conserved server received as_one received-Reach refl

delivered-Justified_example : All (Justified server received) (answer ∷ [])
unfolding send start Queue.new Queue.send_request take_command receive
delivered-Justified_example = delivered-Justified server received received-Reach

Step-Promise_example : Promise silent true (waiting sent) (waiting in_channel)
unfolding event_of send start Queue.new Queue.send_request
Step-Promise_example = Step-Promise server sent in_channel (work pushed)

Runs-distance_example : 1 + distance in_channel ≤ distance sent
unfolding send start Queue.new Queue.send_request
Runs-distance_example = Runs-distance server (worked here pushed)

all_answered_example :
    (s' : System sample_env) × (k : ℕ) × Runs server sent k s'
    × (k ≤ distance sent)
    × ((f : Callback → ℕ)
        → sum (of_sent (weigh f)) sent.sent ≡ sum (of_output (weigh f)) s'.delivered)
unfolding send start Queue.new Queue.send_request
all_answered_example = all_answered server sent sent-Reach refl
