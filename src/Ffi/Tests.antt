-- ===== src/Ffi/Tests.antt =====
-- The theorems about the exported functions in a small world.
use grip.Common.{
  false, ℕ, ◌+◌, ◌≤◌, ◌<◌, ◌≡◌, refl, none, some, List, [], ◌∷◌, arith, if◌then◌else◌, ltb, length,
  get_elem?,
}
use grip.Common.Int.{ℤ, pos, negsuc, int_eq}
use grip.Common.Bytes.{Bytes, split, c_string, bytes_eq}
use grip.Utf8.{is_utf8}
use grip.Errors.{ok, Message}
use grip.Deps.{find, upsert}
use grip.Env.Sample.{sample_env}
use grip.CellMap.{CellMap, get_with_id, lookup}
use grip.CellMap.Laws.{inserted}
use grip.Gc.Heap.{InnerValue, Heap, alloc, alloc_slot}
use grip.Ffi.World.{World, ModuleStorage, done, panic}
use grip.Queue
use grip.Queue.{RequestType, RequestOptions, Request, Response, Callback, OutputCommand, Queue}
use grip.Ffi.Index.{dot_index_safe_rc_gc, dot_index_safe_or_insert_rc_gc}
use grip.Ffi.Index.Paths.{Member, Resolves, dot_index-Resolves}
use grip.Ffi.Index.Inserts.{Grows}
use grip.Ffi.Index.Walks.{or_insert-index, index-or_insert}
use grip.Ffi.Requests.{grip_process_request, grip_request, request_type_of}
use grip.Ffi.Responses.{grip_is_request_active, grip_cancel_request}
use grip.Ffi.Cancels.{cancel_request-inactive}
use grip.Ffi.Delivered.{Delivered, heard}
use grip.Ffi.Frames.{grip_process_request-Delivered}
use grip.Ffi.Values.{
  grip_json_init_number, grip_json_get_number, grip_destroy_json_value, grip_json_get_type,
}
use grip.Ffi.Arrays.{
  grip_json_array_append_value, grip_json_array_get_count, grip_json_array_get_value,
  grip_json_array_remove,
}
use grip.Ffi.Handles.{with_handles, logging, init_number-get_number, destroy_json_value-invalid}
use grip.Ffi.Sharing.{rewritten, append_value-get_value, array_remove_lem}
use grip.Ffi.Objects.{grip_json_object_set_value, grip_json_object_get_value}
use grip.Ffi.Members.{with_heap, set_value-get_value}
use grip.Ffi.Issues.{Arguments, Sent, request-Sent}
use grip.Ffi.Sample.{
  heap, heap-IsHeap, handles, handles-IsValid, storage, world, plugin, plugin-Reacts, noting,
  collector, answer, world-IsArray, object_storage, object_world, object_handles-IsValid,
  object_world-IsObject, object_world-IsText,
}

-- "b.c" leads to slot 2; "b.d" is missing.
abbrev path : Bytes
path = b'b' ∷ b'.' ∷ b'c' ∷ []

abbrev missing : Bytes
missing = b'b' ∷ b'.' ∷ b'd' ∷ []

found : dot_index_safe_rc_gc heap 2 path ≡ some (ok 2)
unfolding dot_index_safe_rc_gc split find bytes_eq
found = refl

dot_index-Resolves_example : Resolves heap 2 2 (split b'.' path)
dot_index-Resolves_example = (dot_index-Resolves heap 2 path 2).0 found

index-or_insert_example :
    dot_index_safe_or_insert_rc_gc heap 2 path (some InnerValue.null) ≡ some (ok 2, heap)
index-or_insert_example = index-or_insert heap 2 path (some InnerValue.null) 2 found

-- The heap after "b.d" has been made.
grown : Heap sample_env.deps
unfolding dot_index_safe_or_insert_rc_gc split find upsert
grown = elim (dot_index_safe_or_insert_rc_gc heap 2 missing (some InnerValue.null)) [
  | none ↦ heap
  | some r ↦ r.1
]

made : dot_index_safe_or_insert_rc_gc heap 2 missing (some InnerValue.null) ≡ some (ok 3, grown)
unfolding grown dot_index_safe_or_insert_rc_gc split find upsert bytes_eq alloc_slot alloc
made = refl

or_insert-index_example : (dot_index_safe_rc_gc grown 2 missing ≡ some (ok 3)) × Grows heap grown
or_insert-index_example =
    or_insert-index heap 2 missing (some InnerValue.null) 3 grown heap-IsHeap made

-- Only 2 requests are pending, so a frame delivers one result.
grip_process_request-Delivered_example :
    (m' : ModuleStorage sample_env) × (grip_process_request plugin collector 1000 1001 1002 world
      ≡ done tt (record world {
        storage = some m';
        memory = heard noting (answer (pos 1) ∷ []) world.memory;
        last_collection = some 1002;
      }))
    × Delivered storage m' 1
unfolding Queue.is_too_early
grip_process_request-Delivered_example =
    grip_process_request-Delivered plugin noting collector 1000 1001 1002 world storage
      plugin-Reacts refl refl ((9, refl), ((9, refl), tt)) (omega arith)

init_number-get_number_example :
    (w' : World sample_env) × (grip_json_init_number (negsuc 4) world ≡ done (pos 3) w')
    × (grip_json_get_number (pos 3) w' ≡ done (negsuc 4) w')
    × (get_with_id handles (pos 3) ≡ none)
init_number-get_number_example =
    init_number-get_number world storage 3 (negsuc 4) refl handles-IsValid (omega arith)
      (omega arith) (omega arith)

destroy_json_value-invalid_example :
    (left : CellMap ℕ) × (grip_destroy_json_value (pos 2) world
      ≡ done (pos 1) (with_handles world storage left))
    × (grip_json_get_type (pos 2) (with_handles world storage left)
        ≡ done (pos 0) (logging (with_handles world storage left) (Message.invalid_json (pos 2))))
    × (grip_destroy_json_value (pos 2) (with_handles world storage left)
        ≡ done
            (pos 0)
            (logging (with_handles world storage left) (Message.invalid_json_value (pos 2))))
    × ((j : ℤ) → get_with_id left j ≡ (if int_eq (pos 2) j then none else get_with_id handles j))
unfolding get_with_id lookup
destroy_json_value-invalid_example = destroy_json_value-invalid world storage (pos 2) 1 refl refl

append_value-get_value_example :
    (grip_json_array_append_value (pos 1) (pos 2) world
      ≡ done (pos 1) (rewritten world 0 (1 ∷ 1 ∷ [])))
    × (grip_json_array_get_count (pos 1) (rewritten world 0 (1 ∷ 1 ∷ []))
        ≡ done (pos 2) (rewritten world 0 (1 ∷ 1 ∷ [])))
    × (grip_json_array_get_value (pos 1) (pos 1) (rewritten world 0 (1 ∷ 1 ∷ []))
        ≡ done (pos 3) (
            with_handles (rewritten world 0 (1 ∷ 1 ∷ [])) storage (inserted 0x7fff_ffff handles 1)))
unfolding get_with_id lookup
append_value-get_value_example =
    append_value-get_value world storage (pos 1) (pos 2) 0 1 3 (1 ∷ []) world-IsArray refl
      handles-IsValid (omega arith)

array_remove_lem_example :
    (0 < 1
      → (rest : List ℕ) × (grip_json_array_remove (pos 1) (pos 0) world
          ≡ done (pos 1) (rewritten world 0 rest))
        × (length rest + 1 ≡ 1)
        × ((j : ℕ) → get_elem? rest j ≡ get_elem? (1 ∷ []) (if ltb j 0 then j else j + 1)))
    × (1 ≤ 0 → grip_json_array_remove (pos 1) (pos 0) world ≡ panic world)
    × ((k : ℕ)
        → grip_json_array_remove (pos 1) (negsuc k) world
          ≡ done (pos 0) (logging world (Message.negative_size (negsuc k))))
array_remove_lem_example = array_remove_lem world storage (pos 1) 0 0 (1 ∷ []) world-IsArray

given : Arguments world storage 16 (negsuc 0) (pos 1) (negsuc 0)
unfolding request_type_of c_string is_utf8 get_with_id lookup
given = record {
  http_type = RequestType.post;
  memory = b'h' ∷ 0 ∷ [];
  text = b'h' ∷ [];
  url = b'h' ∷ [];
  body = [];
  options = record { headers = []; timeout = none };
  storage = refl;
  typed = refl;
  pointer = refl;
  pointed = refl;
  ended = refl;
  utf8 = refl;
  parsed = refl;
  found = refl;
  chosen = refl;
}

request-Sent_example :
    (m' : ModuleStorage sample_env) × (grip_request
        (pos 5)
        16
        (negsuc 0)
        (pos 1)
        (some 9)
        (negsuc 0)
        (pos 6)
        world
      ≡ done (pos 3) (record world { storage = some m' }))
    × Sent storage m'
        (pos 3)
        (record {
          http_type = given.http_type;
          uri = given.url;
          body = given.body;
          options = given.options;
        })
        (record {
          handler = some 9;
          forward_id = pos 5;
          user_data = pos 6;
          next_cancellation_id = pos 3;
        })
    × (grip_is_request_active (pos 3) (record world { storage = some m' })
        ≡ done (pos 1) (record world { storage = some m' }))
request-Sent_example =
    request-Sent world storage 3 (pos 5) 16 (negsuc 0) (pos 1) (some 9) (negsuc 0) (pos 6) given
      handles-IsValid (omega arith)

set_value-get_value_example :
    (h : Heap sample_env.deps) × (grip_json_object_set_value (pos 1) 16 (pos 2) false object_world
      ≡ done (pos 1) (with_heap object_world h))
    × (grip_json_object_get_value (pos 1) 16 false (with_heap object_world h)
        ≡ done (pos 3) (
            with_handles
              (with_heap object_world h)
              object_storage
              (inserted 0x7fff_ffff object_storage.json_handles 1)))
    × ((c : ℕ) (j : Bytes) (s : ℕ) → Member heap c j s → Member h c j s)
unfolding get_with_id lookup
set_value-get_value_example =
    set_value-get_value object_world object_storage (pos 1) 16 (pos 2) 2 1 3 (b'h' ∷ [])
      object_world-IsObject object_world-IsText refl heap-IsHeap object_handles-IsValid
      (omega arith)

cancel_request-inactive_example :
    (m' : ModuleStorage sample_env) × (grip_cancel_request (pos 2) world
      ≡ done (pos 1) (record world { storage = some m' }))
    × (m'.global_queue.dropped ≡ 1 ∷ [])
    × (grip_is_request_active (pos 2) (record world { storage = some m' })
        ≡ done (pos 0) (record world { storage = some m' }))
    × (grip_cancel_request (pos 2) (record world { storage = some m' })
        ≡ done
            (pos 0)
            (logging (record world { storage = some m' }) (Message.no_cancellation (pos 2))))
    × ((j : ℤ)
        → get_with_id m'.cancellations_handles j
          ≡ (if int_eq (pos 2) j then none else get_with_id handles j))
unfolding get_with_id lookup
cancel_request-inactive_example = cancel_request-inactive world storage (pos 2) 1 refl refl
