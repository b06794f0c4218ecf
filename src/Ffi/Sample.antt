-- ===== src/Ffi/Sample.antt =====
-- A small world, at which the theorems about the exported functions are applied.
use grip.Common.{ℕ, refl, true, none, some, [], ◌∷◌, arith, if◌then◌else◌, ◌==◌}
use grip.Common.Int.{ℤ, pos}
use grip.Common.Bytes.{c_string, bytes_eq}
use grip.Utf8.{is_utf8}
use grip.Deps.{Entries, Distinct, find}
use grip.Env.Sample.{sample_env}
use grip.CellMap.{CellMap, get_with_id, lookup}
use grip.CellMap.Laws.{IsValid}
use grip.Gc.Heap.{InnerValue, Heap, IsHeap}
use grip.Ffi.World.{World, ModuleStorage, done, pure}
use grip.Queue.{RequestType, Request, OutputCommand, Queue}
use grip.Ffi.Requests.{Plugin, Collector}
use grip.Ffi.Delivered.{Reaction, Reacts, response_now}
use grip.Ffi.Sharing.{IsArray}
use grip.Ffi.Members.{IsObject, IsText}

abbrev pub two_names : Entries
two_names = (b'a' ∷ [], 0) ∷ (b'b' ∷ [], 1) ∷ []

pub two_names-Distinct : Distinct two_names
unfolding find bytes_eq
two_names-Distinct = (refl, (refl, tt))

abbrev pub one_name : Entries
one_name = (b'c' ∷ [], 2) ∷ []

pub one_name-Distinct : Distinct one_name
unfolding find
one_name-Distinct = (refl, tt)

-- Cell 0 is the array of cell 1, cell 1 a number, cell 2 the object {"a": cell 1, "b": cell 3} and
-- cell 3 the object {"c": cell 1}.
abbrev pub heap : Heap sample_env.deps
heap = record {
  next_value = 4;
  value = λ a.
      if a == 0
      then some (InnerValue.array (1 ∷ []))
      else if a == 1
      then some (InnerValue.number (pos 7))
      else if a == 2
      then some (InnerValue.object (two_names, two_names-Distinct))
      else if a == 3
      then some (InnerValue.object (one_name, one_name-Distinct))
      else none;
  next_slot = 3;
  slot = λ s. if s == 0 then some 1 else if s == 1 then some 3 else if s == 2 then some 1 else none;
}

pub heap-IsHeap : IsHeap heap
heap-IsHeap = record { values = λ a h. ground arith; slots = λ s h. ground arith }

abbrev pub handles : CellMap ℕ
handles = record { inner = (pos 2, 1) ∷ (pos 1, 0) ∷ []; counter = pos 3 }

pub handles-IsValid : IsValid 3 handles
unfolding get_with_id lookup
handles-IsValid = record {
  counter = refl;
  positive = omega arith;
  fresh = λ k h. ground arith;
  signed = λ k. refl;
}

abbrev pub request : Request sample_env
request = record {
  http_type = RequestType.get;
  uri = b'h' ∷ [];
  body = [];
  options = record { headers = []; timeout = none };
}

-- The answer to the request behind the handle `id`.
abbrev pub answer : ℤ → OutputCommand sample_env
answer id =
    OutputCommand.response (record { base_request = request; body = []; status_code = 200 })
      (record {
        handler = some 9;
        forward_id = pos 1;
        user_data = pos 2;
        next_cancellation_id = id;
      })

abbrev pub queue : Queue sample_env
queue = record {
  working_thread = true;
  sends = [];
  input = [];
  output = answer (pos 1) ∷ answer (pos 2) ∷ [];
  channels = 2;
  dropped = [];
  last_time_executed_with_limit = none;
  number_of_pending_requests = 2;
}

abbrev pub storage : ModuleStorage sample_env
storage = record {
  global_queue = queue;
  current_response = none;
  bodies_handles = record { inner = []; counter = pos 1 };
  cancellations_handles = handles;
  json_handles = handles;
  options_handles = record { inner = []; counter = pos 1 };
  callbacks_per_frame = 5;
  microseconds_delay_between_attempts = 50;
}

-- At 16 stands the text "h".
abbrev pub world : World sample_env
world = record {
  storage = some storage;
  heap = heap;
  memory = λ p. if p == 16 then some (b'h' ∷ 0 ∷ []) else none;
  floats = λ p. none;
  files = λ path. none;
  logged = [];
  last_collection = none;
}

-- A handler writes its address in front of what stands at 64.
abbrev pub noting : Reaction sample_env
noting a f u response memory p =
    if p == 64 then some (a ∷ elim (memory 64) [ none ↦ [] | some b ↦ b ]) else memory p

abbrev pub plugin : Plugin sample_env
plugin a f u w = done tt (record w { memory = noting a f u (response_now w.storage) w.memory })

pub plugin-Reacts : Reacts plugin noting
plugin-Reacts a f u w = refl

-- There is always something to collect, and nothing is freed.
abbrev pub collector : Collector sample_env
collector = record { number_of_roots_buffered = λ w. 1; collect_cycles = pure tt }

pub world-IsArray : IsArray world storage (pos 1) 0 (1 ∷ [])
unfolding get_with_id lookup
world-IsArray = record { storage = refl; handle = refl; value = refl }

-- The world with a handle that leads to the object of cell 2.
abbrev pub object_storage : ModuleStorage sample_env
object_storage = record storage {
  json_handles = record { inner = (pos 2, 1) ∷ (pos 1, 2) ∷ []; counter = pos 3 };
}

abbrev pub object_world : World sample_env
object_world = record world { storage = some object_storage }

pub object_handles-IsValid : IsValid 3 object_storage.json_handles
unfolding get_with_id lookup
object_handles-IsValid = record {
  counter = refl;
  positive = omega arith;
  fresh = λ k h. ground arith;
  signed = λ k. refl;
}

pub object_world-IsObject : IsObject object_world object_storage (pos 1) 2
unfolding get_with_id lookup
object_world-IsObject = record {
  storage = refl;
  handle = refl;
  map = (two_names, two_names-Distinct);
  value = refl;
}

pub object_world-IsText : IsText object_world 16 (b'h' ∷ [])
unfolding c_string is_utf8
object_world-IsText = record {
  memory = b'h' ∷ 0 ∷ [];
  pointer = refl;
  pointed = refl;
  ended = refl;
  utf8 = refl;
}
