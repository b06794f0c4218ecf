-- ===== src/Ffi/Calls/Tests.antt =====
-- The interface in the small world.
use grip.Common.{ℕ, zero, suc, ◌<◌, ◌≡◌, refl, ap, ◌∙◌, some, arith}
use grip.Common.Int.{ℤ, pos}
use mathlib.Core.Option.{some-injective}
use grip.Env.Sample.{sample_env}
use grip.CellMap.{get_with_id, lookup}
use grip.Gc.Heap.{InnerValue}
use grip.Gc.Closed.{Refers, Closed}
use grip.Ffi.World.{World, ModuleStorage, done, leave, panic, fault}
use grip.Ffi.Arrays.{grip_json_array_append_value}
use grip.Ffi.Sample.{heap, handles, world}
use grip.Ffi.Safe.{Sound, Ends}
use grip.Ffi.Calls.{Call, run}
use grip.Ffi.Calls.Contract.{Session, start, returns}
use grip.Ffi.Calls.Safety.{call-Ends}

heap-Closed : Closed heap
heap-Closed = record { value = cells; slot = slots }
  where
    cells :
        (a : ℕ) → a < 4 → (v : InnerValue sample_env.deps) × (heap.value a ≡ some v) × Refers heap v
    cells zero l = (_, refl, (omega arith, tt))
    cells (suc zero) l = (_, refl, tt)
    cells (suc (suc zero)) l = (_, refl, (omega arith, (omega arith, tt)))
    cells (suc (suc (suc zero))) l = (_, refl, (omega arith, tt))
    cells (suc (suc (suc (suc a)))) l = absurd (omega arith)

    slots : (s : ℕ) → s < 3 → (a : ℕ) × (heap.slot s ≡ some a) × (a < 4)
    slots zero l = (_, refl, omega arith)
    slots (suc zero) l = (_, refl, omega arith)
    slots (suc (suc zero)) l = (_, refl, omega arith)
    slots (suc (suc (suc s))) l = absurd (omega arith)

handle-below : (id : ℤ) (a : ℕ) → get_with_id handles id ≡ some a → a < 4
unfolding get_with_id lookup
handle-below id a g = ground arith

world-Sound : Sound world
world-Sound = record {
  heap = heap-Closed;
  handles = λ m q id a g. handle-below id a (
      ap (λ (n : ModuleStorage sample_env). get_with_id n.json_handles id) (some-injective _ _ q)
      ∙ g);
}

-- The array of handle 1 with itself as its second element.
cyclic : World sample_env
unfolding grip_json_array_append_value
cyclic = elim (run (Call.json_array_append_value (pos 1) (pos 1)) world) [
  | done r w ↦ w
  | leave c w ↦ w
  | panic w ↦ w
  | fault ↦ world
]

session : Session world cyclic
unfolding cyclic grip_json_array_append_value get_with_id
session = returns world cyclic (Call.json_array_append_value (pos 1) (pos 1)) start tt refl

call-Ends_example : Ends (run (Call.json_deep_copy (pos 1) (pos 5)) cyclic)
call-Ends_example =
    call-Ends world cyclic (Call.json_deep_copy (pos 1) (pos 5)) world-Sound session (omega arith)
