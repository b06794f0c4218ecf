-- ===== src/Queue/Drains.antt =====
-- That every request is answered, if worker and clock go on.
use grip.Common.{
  ℕ, zero, suc, ◌+◌, ◌*◌, ◌≤◌, ◌<◌, ◌≡◌, refl, sym, ◌∙◌, ap, true, List, [], ◌∷◌, ◌++◌, arith,
  length, length-append,
}
use grip.Env.{Env}
use grip.Queue.{Callback, InputCommand, OutputCommand}
use grip.Queue.Worker.{
  Server, Task, State, System, patience, output_of, take_command, receive, expired, Work, Reach,
  push, take, finish, work, tick, deliver, later,
}
use grip.Queue.Accounts.{
  sum, Weight, weigh, of_input, of_task, of_sent, of_output, in_flight, Reach-Balanced,
}
use grip.Queue.Pending.{quits, no_quit, Reach-Running, callbacks_conserved}

-- `k` steps of the worker, the tasks and the receiving thread, between which time may pass. Nothing is
-- sent, cancelled or lost.
pub data Runs {e : Env} (server : Server e) (s : System e) : ℕ → System e → Type 0 where
  here : Runs server s 0 s
  worked : {k : ℕ} {t u : System e} → Runs server s k t → Work server t u → Runs server s (suc k) u
  waited :
      {k : ℕ} {t : System e} (n : ℕ)
      → Runs server s k t
      → Runs server s k (record t { now = t.now + n })
  received :
      {k : ℕ} {t : System e} (c : OutputCommand e) (rest : List (OutputCommand e))
      → Runs server s k t
      → t.queue.output ≡ c ∷ rest
      → Runs server s (suc k) (receive t c rest)

-- The steps that the commands on their way still have to take.
unfoldable pub distance : {e : Env} → System e → ℕ
distance s =
    4 * length s.queue.sends + 3 * length s.queue.input + 2 * length s.tasks + length s.queue.output

module _ {A : Type 0} where
  length_middle :
      (before after : List A) (y : A)
      → length (before ++ y ∷ after) ≡ suc (length (before ++ after))
  length_middle before after y =
      omega (arith, length-append before (y ∷ after), length-append before after)

  length_split :
      (before after xs : List A) (y : A)
      → xs ≡ before ++ y ∷ after
      → length xs ≡ suc (length (before ++ after))
  length_split before after xs y e = ap length e ∙ length_middle before after y

module _ {e : Env} {server : Server e} where
  Work-distance : {s s' : System e} → Work server s s' → distance s' < distance s
  unfolding distance take_command
  Work-distance {s} (push before after c p) =
      omega
        (arith, length_split before after s.queue.sends c p, length-append s.queue.input (c ∷ []))
  Work-distance {s} (take InputCommand.quit rest on p) =
      omega (arith, length_split [] rest s.queue.input InputCommand.quit p)
  Work-distance {s} (take (InputCommand.request channel r callback) rest on p) = omega (
    arith,
    length_split [] rest s.queue.input (InputCommand.request channel r callback) p,
    length-append s.tasks
        (record { channel = channel; request = r; callback = callback; started = s.now } ∷ []),
  )
  Work-distance {s} (finish before after t r p end) = omega (
    arith,
    length_split before after s.tasks t p,
    length-append s.queue.output (output_of t r ∷ []),
  )

  Work-sent : {s s' : System e} → Work server s s' → s'.sent ≡ s.sent
  unfolding take_command
  Work-sent (push before after c p) = refl
  Work-sent (take InputCommand.quit rest on p) = refl
  Work-sent (take (InputCommand.request channel r callback) rest on p) = refl
  Work-sent (finish before after t r p end) = refl

  Runs-sent : {s s' : System e} {k : ℕ} → Runs server s k s' → s'.sent ≡ s.sent
  unfolding receive
  Runs-sent here = refl
  Runs-sent (worked r w) = Work-sent w ∙ Runs-sent r
  Runs-sent (waited n r) = Runs-sent r
  Runs-sent (received c rest r p) = Runs-sent r

-- While nothing is sent, cancelled or lost, the worker, the tasks and the receiving thread take at
-- most 4 steps for each command that waits to be sent, 3 for each in the channel, 2 for each task
-- and 1 for each result, however much time passes: no run of theirs goes on for ever.
pub Runs-distance :
    {e : Env} (server : Server e) {s s' : System e} {k : ℕ}
    → Runs server s k s'
    → k + distance s' ≤ distance s
unfolding distance receive
Runs-distance server here = omega arith
Runs-distance server (worked r w) = omega (arith, Runs-distance server r, Work-distance w)
Runs-distance server (waited n r) = Runs-distance server r
Runs-distance server (received {t} c rest r p) =
    omega (arith, Runs-distance server r, length_split [] rest t.queue.output c p)

-- A state in which nothing is left on its way.
pub record Drained {e : Env} (server : Server e) (s : System e) : Type 0 where
  pub last : System e
  pub steps : ℕ
  pub runs : Runs server s steps last
  pub reach : Reach server last
  pub on : last.queue.working_thread ≡ true
  pub empty : distance last ≡ 0

module _ {e : Env} (server : Server e) (first : System e) where
  -- The state that a run has come to: still going on, at most `n` steps from the end.
  record UnderWay (n k : ℕ) (s : System e) : Type 0 where
    runs : Runs server first k s
    reach : Reach server s
    on : s.queue.working_thread ≡ true
    near : distance s ≤ n

module _ {e : Env} {server : Server e} {first : System e} where
  after_push :
      (n k : ℕ) (s : System e) (c : InputCommand e) (rest : List (InputCommand e))
      → UnderWay server first (suc n) k s
      → s.queue.sends ≡ c ∷ rest
      → (t : System e) × UnderWay server first n (suc k) t
  after_push n k s c rest u p =
      let w : Work server s _ = push [] rest c p in
      (
        _,
        record {
          runs = worked u.runs w;
          reach = later u.reach (work w);
          on = u.on;
          near = omega (arith, u.near, Work-distance w);
        },
      )

  after_take :
      (n k : ℕ) (s : System e) (c : InputCommand e) (rest : List (InputCommand e))
      → UnderWay server first (suc n) k s
      → s.queue.input ≡ c ∷ rest
      → (t : System e) × UnderWay server first n (suc k) t
  unfolding take_command
  after_take n k s InputCommand.quit rest u p =
      absurd (no_quit s rest (Reach-Balanced quits u.reach) p u.on)
  after_take n k s (InputCommand.request channel r callback) rest u p =
      let w : Work server s _ =
        take (InputCommand.request channel r callback) rest ((Reach-Running u.reach).accepting u.on)
          p in
      (
        _,
        record {
          runs = worked u.runs w;
          reach = later u.reach (work w);
          on = u.on;
          near = omega (arith, u.near, Work-distance w);
        },
      )

  -- A task can always end by its timeout.
  after_task :
      (n k : ℕ) (s : System e) (t : Task e) (rest : List (Task e))
      → UnderWay server first (suc n) k s
      → s.tasks ≡ t ∷ rest
      → (s' : System e) × UnderWay server first n (suc k) s'
  unfolding distance
  after_task n k s t rest u p =
      let wait = t.started + patience t.request in
      let s₁ : System e = record s { now = s.now + wait } in
      let w : Work server s₁ _ = finish [] rest t State.timeout p (expired (omega arith)) in
      (
        _,
        record {
          runs = worked (waited wait u.runs) w;
          reach = later (later u.reach (tick wait)) (work w);
          on = u.on;
          near = omega (arith, u.near, Work-distance w);
        },
      )

  after_deliver :
      (n k : ℕ) (s : System e) (c : OutputCommand e) (rest : List (OutputCommand e))
      → UnderWay server first (suc n) k s
      → s.queue.output ≡ c ∷ rest
      → (t : System e) × UnderWay server first n (suc k) t
  unfolding receive distance
  after_deliver n k s c rest u p = (
    _,
    record {
      runs = received c rest u.runs p;
      reach = later u.reach (deliver c rest p);
      on = u.on;
      near = omega (arith, u.near, length_split [] rest s.queue.output c p);
    },
  )

  drain :
      (n k : ℕ) (s : System e) (sends input : List (InputCommand e)) (tasks : List (Task e))
      (output : List (OutputCommand e))
      → UnderWay server first n k s
      → s.queue.sends ≡ sends
      → s.queue.input ≡ input
      → s.tasks ≡ tasks
      → s.queue.output ≡ output
      → Drained server first
  unfolding distance
  drain n k s [] [] [] [] u a b c d = record {
    last = s;
    steps = k;
    runs = u.runs;
    reach = u.reach;
    on = u.on;
    empty = omega (arith, ap length a, ap length b, ap length c, ap length d);
  }
  drain zero k s (x ∷ xs) input tasks output u a b c d = absurd (omega (arith, u.near, ap length a))
  drain (suc n) k s (x ∷ xs) input tasks output u a b c d =
      let (t, v) = after_push n k s x xs u a in
      drain n (suc k) t t.queue.sends t.queue.input t.tasks t.queue.output v refl refl refl refl
  drain zero k s [] (x ∷ xs) tasks output u a b c d = absurd (omega (arith, u.near, ap length b))
  drain (suc n) k s [] (x ∷ xs) tasks output u a b c d =
      let (t, v) = after_take n k s x xs u b in
      drain n (suc k) t t.queue.sends t.queue.input t.tasks t.queue.output v refl refl refl refl
  drain zero k s [] [] (x ∷ xs) output u a b c d = absurd (omega (arith, u.near, ap length c))
  drain (suc n) k s [] [] (x ∷ xs) output u a b c d =
      let (t, v) = after_task n k s x xs u c in
      drain n (suc k) t t.queue.sends t.queue.input t.tasks t.queue.output v refl refl refl refl
  drain zero k s [] [] [] (x ∷ xs) u a b c d = absurd (omega (arith, u.near, ap length d))
  drain (suc n) k s [] [] [] (x ∷ xs) u a b c d =
      let (t, v) = after_deliver n k s x xs u d in
      drain n (suc k) t t.queue.sends t.queue.input t.tasks t.queue.output v refl refl refl refl

sum_empty : {A : Type 0} (f : A → ℕ) (xs : List A) → length xs ≡ 0 → sum f xs ≡ 0
unfolding sum
sum_empty f [] h = refl
sum_empty f (x ∷ xs) h = absurd (omega (arith, h))

nothing_left : {e : Env} (f : Weight) (s : System e) → distance s ≡ 0 → in_flight f s ≡ 0
unfolding distance in_flight
nothing_left f s h = omega (
  arith,
  sum_empty (of_input f) s.queue.sends (omega arith),
  sum_empty (of_input f) s.queue.input (omega arith),
  sum_empty (of_task f) s.tasks (omega arith),
  sum_empty (of_output f) s.queue.output (omega arith),
)

-- From every state that a queue can come to before it is told to stop, the worker, the tasks and the
-- receiving thread can go on, with no more steps than the commands on their way have to take, to a
-- state in which the callbacks that have received a result are those that had been sent, each as
-- often: under any weight of callbacks the sums agree. Timeouts make this so whatever the servers do.
pub all_answered :
    {e : Env} (server : Server e) (s : System e)
    → Reach server s
    → s.queue.working_thread ≡ true
    → (s' : System e) × (k : ℕ) × Runs server s k s'
      × (k ≤ distance s)
      × ((f : Callback → ℕ)
          → sum (of_sent (weigh f)) s.sent ≡ sum (of_output (weigh f)) s'.delivered)
all_answered server s r on =
    let d : Drained server s =
      drain (distance s) 0 s s.queue.sends s.queue.input s.tasks s.queue.output
        (record { runs = here; reach = r; on = on; near = omega arith }) refl refl refl refl in
    (
      d.last,
      d.steps,
      d.runs,
      omega (arith, Runs-distance server d.runs),
      λ f.
          ap (sum (of_sent (weigh f))) (sym (Runs-sent d.runs))
          ∙ omega (
            arith,
            callbacks_conserved server d.last f d.reach d.on,
            nothing_left (weigh f) d.last d.empty,
          ),
    )
