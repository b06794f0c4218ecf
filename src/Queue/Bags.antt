-- ===== src/Queue/Bags.antt =====
-- What the queue promises, order and places forgotten: a bag of callbacks that wait for their
-- result.
use grip.Common.{ℕ, ◌+◌, ◌≡◌, refl, sym, ◌∙◌, Bool, false, List, [], ◌∷◌, ◌++◌, arith}
use mathlib.Core.Quot
use mathlib.Core.Quot.{Quot, Quot-set}
use grip.Env.{Env}
use grip.Queue
use grip.Queue.{Callback, InputCommand, OutputCommand, Queue}
use grip.Queue.Worker.{
  Server, Task, System, output_of, take_command, send, receive, Work, Step, push, take, finish,
  work, tick, submit, cancel, deliver, settle, stop, lose_send, lose_input, lose_task,
}
use grip.Queue.Accounts.{
  sum, sum-append, sum_snoc, sum_split, weigh, of_input, of_output, of_task, in_flight,
  of_output-output_of,
}

-- The same callbacks, each as often: the same weight under every weighing.
abbrev pub SameItems : List Callback → List Callback → Type 0
SameItems xs ys = (f : Callback → ℕ) → sum f xs ≡ sum f ys

abbrev pub Bag : Type 0
Bag = Quot SameItems

SameItems-cons :
    (x : Callback) (xs ys : List Callback) → SameItems xs ys → SameItems (x ∷ xs) (x ∷ ys)
unfolding sum
SameItems-cons x xs ys h f = omega (arith, h f)

pub put : Callback → Bag → Bag
put x =
    Quot.lift Quot-set (λ xs. Quot.mk (x ∷ xs)) (λ xs ys h. Quot.sound (SameItems-cons x xs ys h))

-- What a step means to who waits: a request is accepted, its result is received, it is lost, or
-- nothing.
pub data Event : Type 0 where
  accepted answered lost : Callback → Event
  silent : Event

-- What the bag does at an event. `running` until the queue has taken the command to quit: only then
-- may a callback be lost.
abbrev pub Promise : Event → Bool → Bag → Bag → Type 0
Promise silent running b b' = b' ≡ b
Promise (accepted callback) running b b' = b' ≡ put callback b
Promise (answered callback) running b b' = b ≡ put callback b'
Promise (lost callback) running b b' = (running ≡ false) × (b ≡ put callback b')

module _ {e : Env} where
  callbacks_of : List (InputCommand e) → List Callback
  callbacks_of [] = []
  callbacks_of (InputCommand.request channel r callback ∷ cs) = callback ∷ callbacks_of cs
  callbacks_of (InputCommand.quit ∷ cs) = callbacks_of cs

  task_callbacks : List (Task e) → List Callback
  task_callbacks [] = []
  task_callbacks (t ∷ ts) = t.callback ∷ task_callbacks ts

  abbrev pub callback_of : OutputCommand e → Callback
  callback_of (OutputCommand.response r callback) = callback
  callback_of (OutputCommand.error x callback) = callback

  output_callbacks : List (OutputCommand e) → List Callback
  output_callbacks [] = []
  output_callbacks (c ∷ cs) = callback_of c ∷ output_callbacks cs

  -- The callbacks that wait for their result.
  pub outstanding : System e → List Callback
  outstanding s =
      callbacks_of s.queue.sends
      ++ callbacks_of s.queue.input
      ++ task_callbacks s.tasks
      ++ output_callbacks s.queue.output

  pub waiting : System e → Bag
  waiting s = Quot.mk (outstanding s)

  sum-callbacks_of :
      (f : Callback → ℕ) (cs : List (InputCommand e))
      → sum f (callbacks_of cs) ≡ sum (of_input (weigh f)) cs
  unfolding sum callbacks_of
  sum-callbacks_of f [] = refl
  sum-callbacks_of f (InputCommand.request channel r callback ∷ cs) =
      omega (arith, sum-callbacks_of f cs)
  sum-callbacks_of f (InputCommand.quit ∷ cs) = omega (arith, sum-callbacks_of f cs)

  sum-task_callbacks :
      (f : Callback → ℕ) (ts : List (Task e))
      → sum f (task_callbacks ts) ≡ sum (of_task (weigh f)) ts
  unfolding sum task_callbacks
  sum-task_callbacks f [] = refl
  sum-task_callbacks f (t ∷ ts) = omega (arith, sum-task_callbacks f ts)

  sum-output_callbacks :
      (f : Callback → ℕ) (cs : List (OutputCommand e))
      → sum f (output_callbacks cs) ≡ sum (of_output (weigh f)) cs
  unfolding sum output_callbacks
  sum-output_callbacks f [] = refl
  sum-output_callbacks f (OutputCommand.response r callback ∷ cs) =
      omega (arith, sum-output_callbacks f cs)
  sum-output_callbacks f (OutputCommand.error x callback ∷ cs) =
      omega (arith, sum-output_callbacks f cs)

  sum-outstanding :
      (f : Callback → ℕ) (s : System e) → sum f (outstanding s) ≡ in_flight (weigh f) s
  unfolding outstanding in_flight
  sum-outstanding f s =
      let a = callbacks_of s.queue.sends in
      let b = callbacks_of s.queue.input in
      let c = task_callbacks s.tasks in
      let d = output_callbacks s.queue.output in
      omega (
        arith,
        sum-append f a b,
        sum-append f (a ++ b) c,
        sum-append f (a ++ b ++ c) d,
        sum-callbacks_of f s.queue.sends,
        sum-callbacks_of f s.queue.input,
        sum-task_callbacks f s.tasks,
        sum-output_callbacks f s.queue.output,
      )

  same_waiting :
      (s s' : System e)
      → ((f : Callback → ℕ) → in_flight (weigh f) s' ≡ in_flight (weigh f) s)
      → waiting s' ≡ waiting s
  unfolding waiting
  same_waiting s s' h = Quot.sound (λ f. sum-outstanding f s' ∙ h f ∙ sym (sum-outstanding f s))

  more_waiting :
      (s s' : System e) (callback : Callback)
      → ((f : Callback → ℕ) → in_flight (weigh f) s' ≡ f callback + in_flight (weigh f) s)
      → waiting s' ≡ put callback (waiting s)
  unfolding waiting put sum
  more_waiting s s' callback h =
      Quot.sound (λ f. omega (arith, sum-outstanding f s', h f, sum-outstanding f s))

  callback_of-output_of :
      (f : Callback → ℕ) (c : OutputCommand e) → of_output (weigh f) c ≡ f (callback_of c)
  callback_of-output_of f (OutputCommand.response r callback) = refl
  callback_of-output_of f (OutputCommand.error x callback) = refl

  -- A lost command to quit has no callback.
  unfoldable pub loss_of : InputCommand e → Event
  loss_of InputCommand.quit = silent
  loss_of (InputCommand.request channel r callback) = lost callback

  lost_command :
      (s s' : System e) (c : InputCommand e)
      → s.accepting ≡ false
      → ((f : Callback → ℕ) → in_flight (weigh f) s ≡ of_input (weigh f) c + in_flight (weigh f) s')
      → Promise (loss_of c) s.accepting (waiting s) (waiting s')
  unfolding loss_of
  lost_command s s' InputCommand.quit off h = same_waiting s s' (λ f. omega (arith, h f))
  lost_command s s' (InputCommand.request channel r callback) off h =
      (off, more_waiting s' s callback (λ f. h f))

  -- The event that a step is.
  unfoldable pub event_of : {server : Server e} {s s' : System e} → Step server s s' → Event
  unfolding loss_of
  event_of (work w) = silent
  event_of (tick n) = silent
  event_of (submit r callback on) = accepted callback
  event_of (cancel channel) = silent
  event_of (deliver c rest p) = answered (callback_of c)
  event_of (settle n p) = silent
  event_of (stop on) = silent
  event_of (lose_send before after c off p) = loss_of c
  event_of (lose_input c rest off p) = loss_of c
  event_of (lose_task before after t off p) = lost t.callback

module _ {e : Env} {server : Server e} where
  Work-stays :
      {s s' : System e}
      → Work server s s'
      → (f : Callback → ℕ) → in_flight (weigh f) s' ≡ in_flight (weigh f) s
  unfolding in_flight sum take_command
  Work-stays {s} (push before after c p) f = omega (
    arith,
    sum_split (of_input (weigh f)) before after s.queue.sends c p,
    sum_snoc (of_input (weigh f)) s.queue.input c,
  )
  Work-stays {s} (take InputCommand.quit rest on p) f =
      omega (arith, sum_split (of_input (weigh f)) [] rest s.queue.input InputCommand.quit p)
  Work-stays {s} (take (InputCommand.request channel r callback) rest on p) f = omega (
    arith,
    sum_split (of_input (weigh f)) [] rest s.queue.input (InputCommand.request channel r callback)
        p,
    sum_snoc (of_task (weigh f)) s.tasks
        (record { channel = channel; request = r; callback = callback; started = s.now }),
  )
  Work-stays {s} (finish before after t r p end) f = omega (
    arith,
    sum_split (of_task (weigh f)) before after s.tasks t p,
    sum_snoc (of_output (weigh f)) s.queue.output (output_of t r),
    of_output-output_of (weigh f) t r,
  )

-- Each step of the game's thread, the worker, the tasks, the clock or the runtime does to the bag of
-- callbacks that wait for a result what its event says: the sending of a request puts its callback
-- in; the reception of a result takes its callback out; the loss of a request takes its callback
-- out, and happens only once the stream has ended; and every other step, those of the worker and the
-- tasks among them, leaves the bag as it is.
pub Step-Promise :
    {e : Env} (server : Server e) (s s' : System e) (step : Step server s s')
    → Promise (event_of step) s.accepting (waiting s) (waiting s')
unfolding event_of loss_of in_flight sum send Queue.send_request Queue.send_input_command Queue.stop
    receive Queue.finish_request
Step-Promise server s s' (work w) = same_waiting s s' (Work-stays w)
Step-Promise server s s' (tick n) = same_waiting s s' (λ f. refl)
Step-Promise server s s' (submit r callback on) =
    (more_waiting s s' callback λ f. omega (
      arith,
      sum_snoc (of_input (weigh f)) s.queue.sends
          (InputCommand.request s.queue.channels r callback),
    ))
Step-Promise server s s' (cancel channel) = same_waiting s s' (λ f. refl)
Step-Promise server s s' (deliver c rest p) =
    (more_waiting s' s (callback_of c) λ f. omega (
      arith,
      sum_split (of_output (weigh f)) [] rest s.queue.output c p,
      callback_of-output_of f c,
    ))
Step-Promise server s s' (settle n p) = same_waiting s s' (λ f. refl)
Step-Promise server s s' (stop on) =
    (same_waiting s s'
      λ f. omega (arith, sum_snoc (of_input (weigh f)) s.queue.sends InputCommand.quit))
Step-Promise server s s' (lose_send before after c off p) =
    lost_command s s' c off
      (λ f. omega (arith, sum_split (of_input (weigh f)) before after s.queue.sends c p))
Step-Promise server s s' (lose_input c rest off p) =
    lost_command s s' c off
      (λ f. omega (arith, sum_split (of_input (weigh f)) [] rest s.queue.input c p))
Step-Promise server s s' (lose_task before after t off p) =
    lost_command s s' (InputCommand.request t.channel t.request t.callback) off
      (λ f. omega (arith, sum_split (of_task (weigh f)) before after s.tasks t p))
