-- ===== src/Ffi/Timed/Tests.antt =====
-- Results delivered for some time in the small world.
use grip.Common.{ℕ, ◌*◌, ◌≡◌, refl, some, [], ◌∷◌, arith}
use grip.Common.Int.{pos}
use grip.Env.Sample.{sample_env}
use grip.Ffi.World.{ModuleStorage, done}
use grip.Ffi.Delivered.{Delivered, heard}
use grip.Ffi.Sample.{plugin, plugin-Reacts, noting, answer, storage, world}
use grip.Ffi.Timed.{execute_query_with_timeout, execute_query-Delivered}

-- One round every 100 units of time.
abbrev clock : ℕ → ℕ
clock k = k * 100

-- In a time of 350 there are 3 rounds, and 2 results.
execute_query-Delivered_example :
    (m' : ModuleStorage sample_env) × (execute_query_with_timeout plugin clock 350 10 world
      ≡ done (some tt) (record world {
        storage = some m';
        memory = heard noting (answer (pos 1) ∷ answer (pos 2) ∷ []) world.memory;
      }))
    × Delivered storage m' 2
execute_query-Delivered_example =
    execute_query-Delivered plugin noting clock 350 3 10 world storage plugin-Reacts refl
      ((9, refl), ((9, refl), tt)) (λ j l. omega arith) (omega arith) (omega arith)
