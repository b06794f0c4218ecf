-- ===== src/Ffi/Equals/Ending.antt =====
-- `grip_json_equals` of rust/src/ffi/mod.rs keeps a sound world.
use grip.Common.{ℕ, ◌≡◌, Bool, true, false, some, arith}
use grip.Common.Int.{ℤ}
use grip.Errors.{Message}
use grip.Env.{Env}
use grip.CellMap.{get_with_id}
use grip.Gc.Equal.{Verdict, is, overflow, dangling, equal_at}
use grip.Gc.Equal.Clean.{Clean, at-Clean}
use grip.Ffi.World.{World, ModuleStorage}
use grip.Ffi.Ext.{try_and_log_ffi, chain_err}
use grip.Ffi.Safe.{Sound, Fine, Any, Ends, Fine-bind, Fine-map, Fine-pure}
use grip.Ffi.Safe.Macros.{Cell, get_module-Fine, try_and_log_ffi-Fine, chain_err-ok}
use grip.Ffi.Safe.Arrays.{exported-Ends}
use grip.Ffi.Equals.{grip_json_equals, answer}

module _ {e : Env} where
  answer-Fine : (v : Verdict) {w : World e} → Sound w → Clean v → Fine w Any (answer v w)
  unfolding answer
  answer-Fine (is true) s c = Fine-pure s tt
  answer-Fine (is false) s c = Fine-pure s tt
  answer-Fine overflow s c = Fine.panicked s
  answer-Fine dangling s c = absurd c

  looked_up-Fine :
      {w : World e} (m : ModuleStorage e) (value : ℤ) (x : Message)
      → Sound w
      → w.storage ≡ some m
      → Fine w Cell (try_and_log_ffi (chain_err (get_with_id m.json_handles value) x) w)
  looked_up-Fine m value x s q =
      Fine-map (try_and_log_ffi-Fine (chain_err (get_with_id m.json_handles value) x) s)
        λ a u su h r. omega (arith, s.handles m q value a (chain_err-ok _ _ a r), h.heap.value)

  pub grip_json_equals-Ends :
      (w : World e) (number_eq : e.Number → e.Number → Bool) (depth : ℕ) (value1 value2 : ℤ)
      → Sound w
      → Ends (grip_json_equals number_eq depth value1 value2 w)
  unfolding grip_json_equals
  grip_json_equals-Ends w number_eq depth value1 value2 s = exported-Ends {Q = Any} (
      Fine-bind (get_module-Fine s) λ m v sv g q.
        Fine-bind (looked_up-Fine m value1 _ sv q) λ a u su h i.
          Fine-bind (get_module-Fine su) λ n t st k p.
            Fine-bind (looked_up-Fine n value2 _ st p) λ b x sx l j.
              answer-Fine (equal_at number_eq depth x.heap b a) sx (
                at-Clean number_eq x.heap sx.heap depth b a j
                  (omega (arith, i, k.heap.value, l.heap.value))))
