-- ===== src/Ffi/Equals/Tests.antt =====
-- Values compared in the small world.
use grip.Common.{◌≡◌, refl, ◌==◌, if◌then◌else◌, some, [], ◌∷◌}
use grip.Common.Int.{pos, int_eq}
use grip.Env.Sample.{sample_env}
use grip.CellMap.{get_with_id, lookup}
use grip.Gc.Heap.{InnerValue}
use grip.Gc.Equal.Same.{Same}
use grip.Ffi.World.{World, ModuleStorage, done, panic}
use grip.Ffi.Sample.{heap, storage, world}
use grip.Ffi.Equals.{grip_json_equals, equals-Same, equals-cyclic}

-- A world with two different cells that hold an array of cell 1.
abbrev two_storage : ModuleStorage sample_env
two_storage = record storage {
  json_handles = record { inner = (pos 2, 4) ∷ (pos 1, 0) ∷ []; counter = pos 3 };
}

abbrev two_arrays : World sample_env
two_arrays = record world {
  storage = some two_storage;
  heap = record heap {
    next_value = 5;
    value = λ a. if a == 4 then some (InnerValue.array (1 ∷ [])) else heap.value a;
  };
}

equals-Same_example :
    (grip_json_equals {e = sample_env} int_eq 2 (pos 1) (pos 2) two_arrays ≡ done (pos 1) two_arrays
      → Same int_eq two_arrays.heap 2 4 0)
    × (Same int_eq two_arrays.heap 2 4 0
        → grip_json_equals {e = sample_env} int_eq 2 (pos 1) (pos 2) two_arrays
          ≡ done (pos 1) two_arrays)
unfolding get_with_id lookup
equals-Same_example =
    equals-Same {e = sample_env} int_eq two_arrays two_storage 2 0 4 (pos 1) (pos 2) refl refl refl

-- The world with cell 0 as an array of itself.
abbrev cyclic_world : World sample_env
cyclic_world = record world {
  heap = record heap {
    value = λ a. if a == 0 then some (InnerValue.array (0 ∷ [])) else heap.value a;
  };
}

equals-cyclic_example :
    grip_json_equals {e = sample_env} int_eq 100 (pos 1) (pos 1) cyclic_world ≡ panic cyclic_world
unfolding get_with_id lookup
equals-cyclic_example =
    equals-cyclic {e = sample_env} int_eq cyclic_world storage 100 0 [] (pos 1) (pos 1) refl refl
      refl refl
