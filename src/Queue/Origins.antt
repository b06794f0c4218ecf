-- ===== src/Queue/Origins.antt =====
-- Why a result is what it is.
use grip.Common.{ℕ, ◌+◌, ◌≤◌, ◌≡◌, refl, subst, [], arith, All, All-snoc, All-split, All-map}
use mathlib.Core.List.{Mem, mem-cons_of_mem, mem-cons_self}
use grip.Errors.{ok, err, Error}
use grip.Env.{Env}
use grip.Queue
use grip.Queue.{Response, Callback, InputCommand, OutputCommand, Queue}
use grip.Queue.Worker.{
  Server, Task, State, Sent, System, method_of, patience, output_of, take_command, send, receive,
  start, Ended, answered, refused, dropped, expired, Work, Step, Reach, push, take, finish, work,
  tick, submit, cancel, deliver, settle, stop, lose_send, lose_input, lose_task, begin, later,
}

module _ {e : Env} (server : Server e) where
  -- Why a sent request may have ended in an error.
  abbrev pub Reason : System e → Sent e → Error e.HttpError e.JsonError → Type 0
  Reason s o (Error.http x) =
      server (method_of o.request.http_type) o.request.uri o.request.body o.request.options.headers
        (err x)
  Reason s o Error.request_cancelled = Mem o.channel s.queue.dropped
  Reason s o Error.request_timeout = o.time + patience o.request ≤ s.now
  Reason s o (Error.ffi m) = ⊥
  Reason s o (Error.json x) = ⊥

  -- A request was sent with the result's callback, and the result is one that it may end in.
  abbrev pub Justified : System e → OutputCommand e → Type 0
  Justified s (OutputCommand.response r callback) =
      (o : Sent e) × Mem o s.sent
      × (o.callback ≡ callback)
      × (o.request ≡ r.base_request)
      × server (method_of o.request.http_type) o.request.uri o.request.body
          o.request.options.headers (ok (r.body, r.status_code))
  Justified s (OutputCommand.error x callback) =
      (o : Sent e) × Mem o s.sent × (o.callback ≡ callback) × Reason s o x

abbrev Known : {e : Env} → System e → InputCommand e → Type 0
Known s (InputCommand.request channel r callback) =
    (time : ℕ) × Mem (record { channel = channel; request = r; callback = callback; time = time })
      s.sent
    × (time ≤ s.now)
Known s InputCommand.quit = Unit

abbrev Owned : {e : Env} → System e → Task e → Type 0
Owned s t =
    (time : ℕ) × Mem
      (record { channel = t.channel; request = t.request; callback = t.callback; time = time })
      s.sent
    × (time ≤ t.started)

record Traced {e : Env} (server : Server e) (s : System e) : Type 0 where
  sends : All (Known s) s.queue.sends
  input : All (Known s) s.queue.input
  tasks : All (Owned s) s.tasks
  output : All (Justified server s) s.queue.output
  delivered : All (Justified server s) s.delivered

-- What can only grow.
record Later {e : Env} (s s' : System e) : Type 0 where
  sent : (o : Sent e) → Mem o s.sent → Mem o s'.sent
  dropped : (channel : ℕ) → Mem channel s.queue.dropped → Mem channel s'.queue.dropped
  now : s.now ≤ s'.now

unchanged :
    {e : Env} (s s' : System e)
    → s.sent ≡ s'.sent
    → s.queue.dropped ≡ s'.queue.dropped
    → s.now ≤ s'.now
    → Later s s'
unchanged s s' p q h = record {
  sent = λ o m. subst (Mem o) p m;
  dropped = λ channel m. subst (Mem channel) q m;
  now = h;
}

-- The lists of `s`, as those of a later `s'` would have to be.
record Carried {e : Env} (server : Server e) (s s' : System e) : Type 0 where
  sends : All (Known s') s.queue.sends
  input : All (Known s') s.queue.input
  tasks : All (Owned s') s.tasks
  output : All (Justified server s') s.queue.output
  delivered : All (Justified server s') s.delivered

module _ {e : Env} (s s' : System e) (l : Later s s') where
  Known-later : (c : InputCommand e) → Known s c → Known s' c
  Known-later (InputCommand.request channel r callback) (time, m, h) = (
    time,
    l.sent (record { channel = channel; request = r; callback = callback; time = time }) m,
    omega (arith, l.now),
  )
  Known-later InputCommand.quit h = tt

  Owned-later : (t : Task e) → Owned s t → Owned s' t
  Owned-later t (time, m, h) = (
    time,
    l.sent (record { channel = t.channel; request = t.request; callback = t.callback; time = time })
        m,
    h,
  )

module _ {e : Env} (server : Server e) (s s' : System e) (l : Later s s') where
  Reason-later :
      (o : Sent e) (x : Error e.HttpError e.JsonError) → Reason server s o x → Reason server s' o x
  Reason-later o (Error.http x) h = h
  Reason-later o Error.request_cancelled h = l.dropped o.channel h
  Reason-later o Error.request_timeout h = omega (arith, l.now)
  Reason-later o (Error.ffi _) h = elim h [ ]
  Reason-later o (Error.json _) h = elim h [ ]

  Justified-later : (c : OutputCommand e) → Justified server s c → Justified server s' c
  Justified-later (OutputCommand.response r callback) (o, m, p, q, h) = (o, l.sent o m, p, q, h)
  Justified-later (OutputCommand.error x callback) (o, m, q, h) =
      (o, l.sent o m, q, Reason-later o x h)

  carry : Traced server s → Carried server s s'
  carry t = record {
    sends = All-map s.queue.sends (Known-later s s' l) t.sends;
    input = All-map s.queue.input (Known-later s s' l) t.input;
    tasks = All-map s.tasks (Owned-later s s' l) t.tasks;
    output = All-map s.queue.output Justified-later t.output;
    delivered = All-map s.delivered Justified-later t.delivered;
  }

-- The end of a task, from the task's origin.
output_of-Justified :
    {e : Env} (server : Server e) (s s' : System e) (t : Task e) (r : State e)
    → Later s s'
    → Owned s' t
    → Ended server s t r
    → Justified server s' (output_of t r)
unfolding output_of
output_of-Justified server s s' t (State.successful _ _) l (time, m, h) (answered body code a) =
    (_, m, refl, refl, a)
output_of-Justified server s s' t (State.failed _) l (time, m, h) (refused x a) = (_, m, refl, a)
output_of-Justified server s s' t State.canceled l (time, m, h) (dropped d) =
    (_, m, refl, l.dropped t.channel d)
output_of-Justified server s s' t State.timeout l (time, m, h) (expired d) =
    (_, m, refl, omega (arith, l.now))

module _ {e : Env} {server : Server e} where
  Work-Traced : {s s' : System e} → Work server s s' → Traced server s → Traced server s'
  unfolding take_command
  Work-Traced {s} {s'} (push before after c p) t =
      let k = carry server s s' (unchanged s s' refl refl (omega arith)) t in
      let (this, others) = All-split (Known s') before after s.queue.sends c p k.sends in
      record {
        sends = others;
        input = All-snoc (Known s') s.queue.input c k.input this;
        tasks = k.tasks;
        output = k.output;
        delivered = k.delivered;
      }
  Work-Traced {s} {s'} (take InputCommand.quit rest on p) t =
      let k = carry server s s' (unchanged s s' refl refl (omega arith)) t in
      let (this, others) = All-split (Known s') [] rest s.queue.input InputCommand.quit p k.input in
      record {
        sends = k.sends;
        input = others;
        tasks = k.tasks;
        output = k.output;
        delivered = k.delivered;
      }
  Work-Traced {s} {s'} (take (InputCommand.request channel r callback) rest on p) t =
      let k = carry server s s' (unchanged s s' refl refl (omega arith)) t in
      let ((time, m, h), others) =
        All-split (Known s') [] rest s.queue.input (InputCommand.request channel r callback) p
          k.input in
      record {
        sends = k.sends;
        input = others;
        tasks =
            All-snoc (Owned s') s.tasks
              (record { channel = channel; request = r; callback = callback; started = s.now })
              k.tasks (time, m, h);
        output = k.output;
        delivered = k.delivered;
      }
  Work-Traced {s} {s'} (finish before after task r p end) t =
      let l = unchanged s s' refl refl (omega arith) in
      let k = carry server s s' l t in
      let (this, others) = All-split (Owned s') before after s.tasks task p k.tasks in
      record {
        sends = k.sends;
        input = k.input;
        tasks = others;
        output =
            All-snoc (Justified server s') s.queue.output (output_of task r) k.output
              (output_of-Justified server s s' task r l this end);
        delivered = k.delivered;
      }

  Step-Traced : {s s' : System e} → Step server s s' → Traced server s → Traced server s'
  unfolding send Queue.send_request Queue.send_input_command Queue.stop receive Queue.finish_request
  Step-Traced (work w) t = Work-Traced w t
  Step-Traced {s} {s'} (tick n) t =
      let k = carry server s s' (unchanged s s' refl refl (omega arith)) t in
      record {
        sends = k.sends;
        input = k.input;
        tasks = k.tasks;
        output = k.output;
        delivered = k.delivered;
      }
  Step-Traced {s} {s'} (submit r callback on) t =
      let k =
        carry server s s'
          (record { sent = λ o m. mem-cons_of_mem _ m; dropped = λ d m. m; now = omega arith }) t in
      record {
        sends =
            All-snoc (Known s') s.queue.sends (InputCommand.request s.queue.channels r callback)
              k.sends (s.now, mem-cons_self, omega arith);
        input = k.input;
        tasks = k.tasks;
        output = k.output;
        delivered = k.delivered;
      }
  Step-Traced {s} {s'} (cancel channel) t =
      let k =
        carry server s s'
          (record { sent = λ o m. m; dropped = λ d m. mem-cons_of_mem _ m; now = omega arith }) t in
      record {
        sends = k.sends;
        input = k.input;
        tasks = k.tasks;
        output = k.output;
        delivered = k.delivered;
      }
  Step-Traced {s} {s'} (deliver c rest p) t =
      let k = carry server s s' (unchanged s s' refl refl (omega arith)) t in
      let (this, others) = All-split (Justified server s') [] rest s.queue.output c p k.output in
      record {
        sends = k.sends;
        input = k.input;
        tasks = k.tasks;
        output = others;
        delivered = (this, k.delivered);
      }
  Step-Traced {s} {s'} (settle n p) t =
      let k = carry server s s' (unchanged s s' refl refl (omega arith)) t in
      record {
        sends = k.sends;
        input = k.input;
        tasks = k.tasks;
        output = k.output;
        delivered = k.delivered;
      }
  Step-Traced {s} {s'} (stop on) t =
      let k = carry server s s' (unchanged s s' refl refl (omega arith)) t in
      record {
        sends = All-snoc (Known s') s.queue.sends InputCommand.quit k.sends tt;
        input = k.input;
        tasks = k.tasks;
        output = k.output;
        delivered = k.delivered;
      }
  Step-Traced {s} {s'} (lose_send before after c off p) t =
      let k = carry server s s' (unchanged s s' refl refl (omega arith)) t in
      let (this, others) = All-split (Known s') before after s.queue.sends c p k.sends in
      record {
        sends = others;
        input = k.input;
        tasks = k.tasks;
        output = k.output;
        delivered = k.delivered;
      }
  Step-Traced {s} {s'} (lose_input c rest off p) t =
      let k = carry server s s' (unchanged s s' refl refl (omega arith)) t in
      let (this, others) = All-split (Known s') [] rest s.queue.input c p k.input in
      record {
        sends = k.sends;
        input = others;
        tasks = k.tasks;
        output = k.output;
        delivered = k.delivered;
      }
  Step-Traced {s} {s'} (lose_task before after task off p) t =
      let k = carry server s s' (unchanged s s' refl refl (omega arith)) t in
      let (this, others) = All-split (Owned s') before after s.tasks task p k.tasks in
      record {
        sends = k.sends;
        input = k.input;
        tasks = others;
        output = k.output;
        delivered = k.delivered;
      }

  Reach-Traced : {s : System e} → Reach server s → Traced server s
  unfolding start Queue.new
  Reach-Traced begin = record { sends = tt; input = tt; tasks = tt; output = tt; delivered = tt }
  Reach-Traced (later r st) = Step-Traced st (Reach-Traced r)

-- Every result that a callback has received belongs to a request that was sent with this callback.
-- A response names that request, and a server gave it for the request's method, address, body and
-- headers. An error is what the client reported for the request, or a cancellation after the sender
-- of the request's channel was dropped, or a timeout no sooner than the request's own time (65535
-- seconds where it has none) after it was sent.
pub delivered-Justified :
    {e : Env} (server : Server e) (s : System e)
    → Reach server s
    → All (Justified server s) s.delivered
delivered-Justified server s r = (Reach-Traced r).delivered
