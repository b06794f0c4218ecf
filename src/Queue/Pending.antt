-- ===== src/Queue/Pending.antt =====
-- The number of pending requests, and that each request is answered at most once.
use grip.Common.{
  ℕ, suc, ◌+◌, ◌*◌, ◌%◌, ◌≡◌, refl, sym, ◌∙◌, ap, ap₂, true, none, some, List, [], ◌∷◌, arith, ◌==◌,
  Bool-cases, inl, inr, length,
}
use native.Mathlib.Nat.{suc-mod, mod-lt, mod-eq_of_lt, mod_self, zero-mod}
use grip.Common.Int.{usize_suc, usize_pred}
use grip.Env.{Env}
use grip.Queue
use grip.Queue.{Callback, InputCommand, OutputCommand, Queue}
use grip.Queue.Worker.{
  Server, System, output_of, take_command, send, receive, start, Work, Step, Reach, push, take,
  finish, work, tick, submit, cancel, deliver, settle, stop, lose_send, lose_input, lose_task,
  begin, later,
}
use grip.Queue.Accounts.{
  sum, sum_snoc, sum_split, Weight, weigh, of_input, of_output, of_task, of_sent, in_flight,
  Balanced, Reach-Balanced,
}

-- Counting up and down modulo the word.
usize_suc-mod : (max x : ℕ) → usize_suc max (x % suc max) ≡ suc x % suc max
usize_suc-mod max x = elim (Bool-cases (x % suc max == max)) [
  | inl last ↦ ground (arith, suc-mod x (suc max), mod_self (suc max))
  | inr below ↦ ground (
    arith,
    suc-mod x (suc max),
    mod-lt x {m = suc max} (omega arith),
    mod-eq_of_lt {n = suc (x % suc max)} {m = suc max},
  )
]

usize_pred-mod : (max x : ℕ) → usize_pred max (suc x % suc max) ≡ x % suc max
usize_pred-mod max x = elim (Bool-cases (x % suc max == max)) [
  | inl last ↦ ground (arith, suc-mod x (suc max), mod_self (suc max))
  | inr below ↦ ground (
    arith,
    suc-mod x (suc max),
    mod-lt x {m = suc max} (omega arith),
    mod-eq_of_lt {n = suc (x % suc max)} {m = suc max},
  )
]

sum_zero : {A : Type 0} (f : A → ℕ) (xs : List A) → ((x : A) → f x ≡ 0) → sum f xs ≡ 0
unfolding sum
sum_zero f [] h = refl
sum_zero f (x ∷ xs) h = omega (arith, h x, sum_zero f xs h)

sum_one : {A : Type 0} (f : A → ℕ) (xs : List A) → ((x : A) → f x ≡ 1) → sum f xs ≡ length xs
unfolding sum
sum_one f [] h = refl
sum_one f (x ∷ xs) h = omega (arith, h x, sum_one f xs h)

abbrev one : Weight
one _ = 1

-- Commands to quit only.
abbrev pub quits : Weight
quits none = 1
quits (some _) = 0

abbrev max : Env → ℕ
max e = 2 * e.isize_max + 1

-- While the queue has not been told to stop, its stream goes on and no command is lost.
pub record Running {e : Env} (s : System e) : Type 0 where
  pub accepting : s.queue.working_thread ≡ true → s.accepting ≡ true
  pub kept : s.queue.working_thread ≡ true → s.lost ≡ []

module _ {e : Env} where
  one-of_input : (c : InputCommand e) → of_input one c ≡ 1
  one-of_input (InputCommand.request channel r callback) = refl
  one-of_input InputCommand.quit = refl

  one-of_output : (c : OutputCommand e) → of_output one c ≡ 1
  one-of_output (OutputCommand.response r callback) = refl
  one-of_output (OutputCommand.error x callback) = refl

  -- All commands that have been counted and not discounted.
  counted : System e → ℕ
  counted s = in_flight one s + sum (of_input one) s.lost + s.unfinished

  abbrev Counted : System e → Type 0
  Counted s = s.queue.number_of_pending_requests ≡ counted s % suc (max e)

  counted-up :
      (s s' : System e)
      → counted s' ≡ suc (counted s)
      → s'.queue.number_of_pending_requests ≡ usize_suc (max e) s.queue.number_of_pending_requests
      → Counted s
      → Counted s'
  counted-up s s' c p h =
      p
      ∙ ap (usize_suc (max e)) h
      ∙ usize_suc-mod (max e) (counted s)
      ∙ ap (λ z. z % suc (max e)) (sym c)

  counted-down :
      (s s' : System e)
      → counted s ≡ suc (counted s')
      → s'.queue.number_of_pending_requests ≡ usize_pred (max e) s.queue.number_of_pending_requests
      → Counted s
      → Counted s'
  counted-down s s' c p h =
      p
      ∙ ap (usize_pred (max e)) (h ∙ ap (λ z. z % suc (max e)) c)
      ∙ usize_pred-mod (max e) (counted s')

  counted-same :
      (s s' : System e)
      → counted s ≡ counted s'
      → s'.queue.number_of_pending_requests ≡ s.queue.number_of_pending_requests
      → Counted s
      → Counted s'
  counted-same s s' c p h = p ∙ h ∙ ap (λ z. z % suc (max e)) c

  pub no_quit :
      (s : System e) (rest : List (InputCommand e))
      → Balanced quits s
      → s.queue.input ≡ InputCommand.quit ∷ rest
      → s.queue.working_thread ≡ true
      → ⊥
  unfolding in_flight
  no_quit s rest b p on = ground (
    arith,
    b.sums,
    sum_zero (of_sent {e = e} quits) s.sent (λ x. refl),
    sum_split (of_input quits) [] rest s.queue.input InputCommand.quit p,
  )

module _ {e : Env} {server : Server e} where
  Work-counted : {s s' : System e} → Work server s s' → counted s ≡ counted s'
  unfolding counted in_flight sum take_command
  Work-counted {s} (push before after c p) = omega (
    arith,
    sum_split (of_input one) before after s.queue.sends c p,
    sum_snoc (of_input one) s.queue.input c,
  )
  Work-counted {s} (take InputCommand.quit rest on p) =
      omega (arith, sum_split (of_input one) [] rest s.queue.input InputCommand.quit p)
  Work-counted {s} (take (InputCommand.request channel r callback) rest on p) = omega (
    arith,
    sum_split (of_input one) [] rest s.queue.input (InputCommand.request channel r callback) p,
    sum_snoc (of_task one) s.tasks
        (record { channel = channel; request = r; callback = callback; started = s.now }),
  )
  Work-counted {s} (finish before after t r p end) = omega (
    arith,
    sum_split (of_task one) before after s.tasks t p,
    sum_snoc (of_output one) s.queue.output (output_of t r),
    one-of_output (output_of t r),
  )

  Work-pending :
      {s s' : System e}
      → Work server s s'
      → s'.queue.number_of_pending_requests ≡ s.queue.number_of_pending_requests
  unfolding take_command
  Work-pending (push before after c p) = refl
  Work-pending (take InputCommand.quit rest on p) = refl
  Work-pending (take (InputCommand.request channel r callback) rest on p) = refl
  Work-pending (finish before after t r p end) = refl

  Step-Counted : {s s' : System e} → Step server s s' → Counted s → Counted s'
  unfolding counted in_flight sum send Queue.send_request Queue.send_input_command Queue.stop
      receive Queue.finish_request
  Step-Counted {s} {s'} (work w) h = counted-same s s' (Work-counted w) (Work-pending w) h
  Step-Counted (tick n) h = h
  Step-Counted {s} {s'} (submit r callback on) h =
      counted-up s s'
        (omega (
          arith,
          sum_snoc (of_input one) s.queue.sends (InputCommand.request s.queue.channels r callback),
        ))
        refl h
  Step-Counted (cancel channel) h = h
  Step-Counted {s} {s'} (deliver c rest p) h =
      counted-same s s'
        (omega (arith, sum_split (of_output one) [] rest s.queue.output c p, one-of_output c)) refl
        h
  Step-Counted {s} {s'} (settle n p) h = counted-down s s' (omega (arith, p)) refl h
  Step-Counted {s} {s'} (stop on) h =
      counted-up s s' (omega (arith, sum_snoc (of_input one) s.queue.sends InputCommand.quit)) refl
        h
  Step-Counted {s} {s'} (lose_send before after c off p) h =
      counted-same s s' (omega (arith, sum_split (of_input one) before after s.queue.sends c p))
        refl h
  Step-Counted {s} {s'} (lose_input c rest off p) h =
      counted-same s s' (omega (arith, sum_split (of_input one) [] rest s.queue.input c p)) refl h
  Step-Counted {s} {s'} (lose_task before after t off p) h =
      counted-same s s' (omega (arith, sum_split (of_task one) before after s.tasks t p)) refl h

  Step-Running : {s s' : System e} → Step server s s' → Balanced quits s → Running s → Running s'
  unfolding take_command send Queue.send_request Queue.send_input_command Queue.stop receive
      Queue.finish_request
  Step-Running (work (push before after c p)) b h = record {
    accepting = h.accepting;
    kept = h.kept;
  }
  Step-Running {s} (work (take InputCommand.quit rest on p)) b h = record {
    accepting = λ q. absurd (no_quit s rest b p q);
    kept = λ q. absurd (no_quit s rest b p q);
  }
  Step-Running (work (take (InputCommand.request channel r callback) rest on p)) b h = record {
    accepting = h.accepting;
    kept = h.kept;
  }
  Step-Running (work (finish before after t r p end)) b h = record {
    accepting = h.accepting;
    kept = h.kept;
  }
  Step-Running (tick n) b h = record { accepting = h.accepting; kept = h.kept }
  Step-Running (submit r callback on) b h = record { accepting = h.accepting; kept = h.kept }
  Step-Running (cancel channel) b h = record { accepting = h.accepting; kept = h.kept }
  Step-Running (deliver c rest p) b h = record { accepting = h.accepting; kept = h.kept }
  Step-Running (settle n p) b h = record { accepting = h.accepting; kept = h.kept }
  Step-Running (stop on) b h = record { accepting = λ q. cc; kept = λ q. cc }
  Step-Running (lose_send before after c off p) b h = record {
    accepting = h.accepting;
    kept = λ q. cc (h.accepting q);
  }
  Step-Running (lose_input c rest off p) b h = record {
    accepting = h.accepting;
    kept = λ q. cc (h.accepting q);
  }
  Step-Running (lose_task before after t off p) b h = record {
    accepting = h.accepting;
    kept = λ q. cc (h.accepting q);
  }

  pub Reach-Running : {s : System e} → Reach server s → Running s
  unfolding start Queue.new
  Reach-Running begin = record { accepting = λ q. refl; kept = λ q. refl }
  Reach-Running (later r st) = Step-Running st (Reach-Balanced quits r) (Reach-Running r)

  Reach-Counted : {s : System e} → Reach server s → Counted s
  unfolding start Queue.new counted in_flight sum
  Reach-Counted begin = sym (zero-mod (suc (max e)))
  Reach-Counted (later r st) = Step-Counted st (Reach-Counted r)

-- Until the queue is told to stop, its count of pending requests is, up to the word's wrap-around,
-- the number of commands that wait to be sent or taken, of tasks that run, of results that wait, and
-- of received results whose callback has not returned.
pub pending_lem :
    {e : Env} (server : Server e) (s : System e)
    → Reach server s
    → s.queue.working_thread ≡ true
    → s.queue.number_of_pending_requests
      ≡ (length s.queue.sends
          + length s.queue.input
          + length s.tasks
          + length s.queue.output
          + s.unfinished)
        % (2 * e.isize_max + 2)
unfolding counted in_flight sum
pending_lem {e} server s r on =
    Reach-Counted r
    ∙ ap₂ ◌%◌
        (omega (
          arith,
          sum_one (of_input one) s.queue.sends one-of_input,
          sum_one (of_input one) s.queue.input one-of_input,
          sum_one (of_task {e = e} one) s.tasks (λ t. refl),
          sum_one (of_output one) s.queue.output one-of_output,
          ap (sum (of_input one)) ((Reach-Running r).kept on),
        ))
        (omega arith)

-- Until the queue is told to stop, the callbacks that were sent are those of the commands that wait,
-- the tasks, the results that wait and the results that were received, each as often: under any
-- weight of callbacks, the weight of those sent is the sum of the weights in these places.
pub callbacks_conserved :
    {e : Env} (server : Server e) (s : System e) (f : Callback → ℕ)
    → Reach server s
    → s.queue.working_thread ≡ true
    → sum (of_sent (weigh f)) s.sent ≡ in_flight (weigh f) s + sum (of_output (weigh f)) s.delivered
unfolding sum
callbacks_conserved server s f r on = ground (
  arith,
  (Reach-Balanced (weigh f) r).sums,
  ap (sum (of_input (weigh f))) ((Reach-Running r).kept on),
)
