-- ===== src/Queue/Accounts.antt =====
-- Where the requests of a queue are, and its count of pending ones.
use grip.Common.{
  ℕ, ◌+◌, ◌≡◌, refl, ◌∙◌, ap, Option, none, some, List, [], ◌∷◌, ◌++◌, arith, if◌then◌else◌,
}
use grip.Env.{Env}
use grip.Queue
use grip.Queue.{Callback, InputCommand, OutputCommand, Queue}
use grip.Queue.Worker.{
  Server, Task, State, Sent, System, output_of, take_command, send, receive, start, Work, Step,
  Reach, push, take, finish, work, tick, submit, cancel, deliver, settle, stop, lose_send,
  lose_input, lose_task, begin, later,
}

-- The sum of a weight over a list.
unfoldable pub sum : {A : Type 0} → (A → ℕ) → List A → ℕ
sum f [] = 0
sum f (x ∷ xs) = f x + sum f xs

module _ {A : Type 0} (f : A → ℕ) where
  pub sum-append : (xs ys : List A) → sum f (xs ++ ys) ≡ sum f xs + sum f ys
  unfolding sum
  sum-append [] ys = omega arith
  sum-append (x ∷ xs) ys = omega (arith, sum-append xs ys)

  pub sum_snoc : (xs : List A) (y : A) → sum f (xs ++ y ∷ []) ≡ sum f xs + f y
  unfolding sum
  sum_snoc xs y = omega (arith, sum-append xs (y ∷ []))

  -- An item taken out of the middle of a list.
  pub sum_split :
      (before after xs : List A) (y : A)
      → xs ≡ before ++ y ∷ after
      → sum f xs ≡ f y + sum f (before ++ after)
  unfolding sum
  sum_split before after xs y e =
      ap (sum f) e ∙ omega (arith, sum-append before (y ∷ after), sum-append before after)

-- A weight for the callback of a command; `none` is the command to quit, which has none.
abbrev pub Weight : Type 0
Weight = Option Callback → ℕ

-- The weight of callbacks only.
abbrev pub weigh : (Callback → ℕ) → Weight
weigh f none = 0
weigh f (some callback) = f callback

module _ {e : Env} (f : Weight) where
  abbrev pub of_input : InputCommand e → ℕ
  of_input (InputCommand.request channel r callback) = f (some callback)
  of_input InputCommand.quit = f none

  abbrev pub of_output : OutputCommand e → ℕ
  of_output (OutputCommand.response r callback) = f (some callback)
  of_output (OutputCommand.error x callback) = f (some callback)

  abbrev pub of_task : Task e → ℕ
  of_task t = f (some t.callback)

  abbrev pub of_sent : Sent e → ℕ
  of_sent r = f (some r.callback)

  -- The commands on their way: sends, channel, tasks, results.
  unfoldable pub in_flight : System e → ℕ
  unfolding sum
  in_flight s =
      sum of_input s.queue.sends
      + sum of_input s.queue.input
      + sum of_task s.tasks
      + sum of_output s.queue.output

  pub of_output-output_of :
      (t : Task e) (r : State e) → of_output (output_of t r) ≡ f (some t.callback)
  unfolding output_of
  of_output-output_of t (State.successful body code) = refl
  of_output-output_of t (State.failed x) = refl
  of_output-output_of t State.canceled = refl
  of_output-output_of t State.timeout = refl

-- Nothing is lost track of, and nothing is there twice.
pub record Balanced {e : Env} (f : Weight) (s : System e) : Type 0 where
  pub sums :
      sum (of_sent f) s.sent + (if s.queue.working_thread then 0 else f none)
      ≡ in_flight f s + sum (of_output f) s.delivered + sum (of_input f) s.lost

Balanced-start : {e : Env} (f : Weight) → Balanced f (start (Queue.new {e = e}))
unfolding start Queue.new in_flight sum
Balanced-start f = record { sums = refl }

module _ {e : Env} {server : Server e} (f : Weight) where
  pub Work-Balanced : {s s' : System e} → Work server s s' → Balanced f s → Balanced f s'
  unfolding in_flight sum take_command
  Work-Balanced {s} (push before after c p) b = record {
    sums = omega (
      arith,
      b.sums,
      sum_split (of_input f) before after s.queue.sends c p,
      sum_snoc (of_input f) s.queue.input c,
    );
  }
  Work-Balanced {s} (take InputCommand.quit rest open_ p) b = record {
    sums = omega (arith, b.sums, sum_split (of_input f) [] rest s.queue.input InputCommand.quit p);
  }
  Work-Balanced {s} (take (InputCommand.request channel r callback) rest open_ p) b = record {
    sums = omega (
      arith,
      b.sums,
      sum_split (of_input f) [] rest s.queue.input (InputCommand.request channel r callback) p,
      sum_snoc (of_task f) s.tasks
          (record { channel = channel; request = r; callback = callback; started = s.now }),
    );
  }
  Work-Balanced {s} (finish before after t r p end) b = record {
    sums = omega (
      arith,
      b.sums,
      sum_split (of_task f) before after s.tasks t p,
      sum_snoc (of_output f) s.queue.output (output_of t r),
      of_output-output_of f t r,
    );
  }

  pub Step-Balanced : {s s' : System e} → Step server s s' → Balanced f s → Balanced f s'
  unfolding in_flight sum send Queue.send_request Queue.send_input_command Queue.stop receive
      Queue.finish_request
  Step-Balanced (work w) b = Work-Balanced w b
  Step-Balanced (tick n) b = record { sums = b.sums }
  Step-Balanced {s} (submit r callback on) b = record {
    sums = omega (
      arith,
      b.sums,
      sum_snoc (of_input f) s.queue.sends (InputCommand.request s.queue.channels r callback),
    );
  }
  Step-Balanced (cancel channel) b = record { sums = b.sums }
  Step-Balanced {s} (deliver c rest p) b = record {
    sums = omega (arith, b.sums, sum_split (of_output f) [] rest s.queue.output c p);
  }
  Step-Balanced (settle n p) b = record { sums = b.sums }
  Step-Balanced {s} (stop on) b = record {
    sums = ground (arith, b.sums, sum_snoc (of_input f) s.queue.sends InputCommand.quit);
  }
  Step-Balanced {s} (lose_send before after c off p) b = record {
    sums = omega (arith, b.sums, sum_split (of_input f) before after s.queue.sends c p);
  }
  Step-Balanced {s} (lose_input c rest off p) b = record {
    sums = omega (arith, b.sums, sum_split (of_input f) [] rest s.queue.input c p);
  }
  Step-Balanced {s} (lose_task before after t off p) b = record {
    sums = omega (arith, b.sums, sum_split (of_task f) before after s.tasks t p);
  }

  pub Reach-Balanced : {s : System e} → Reach server s → Balanced f s
  Reach-Balanced begin = Balanced-start f
  Reach-Balanced (later r st) = Step-Balanced st (Reach-Balanced r)
