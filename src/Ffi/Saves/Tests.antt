-- ===== src/Ffi/Saves/Tests.antt =====
-- Saving and loading in the small world.
use grip.Common.{◌≡◌, refl, true, some, none, [], ◌∷◌}
use grip.Common.Int.{pos}
use grip.Common.Bytes.{Bytes, c_string}
use grip.Utf8.{is_utf8}
use grip.Errors.{ok, Message}
use grip.Env.Sample.{sample_env}
use grip.CellMap.{get_with_id, lookup}
use grip.Gc.Value.{Value}
use grip.Gc.Convert.{into_with_recursion_limit}
use grip.Ffi.World.{World, done}
use grip.Ffi.Values.{init_json}
use grip.Ffi.Files.{Disk, grip_json_parse_file, grip_json_serial_to_file}
use grip.Ffi.Handles.{logging}
use grip.Ffi.Members.{IsText}
use grip.Ffi.Sample.{storage, world}
use grip.Ffi.Saves.{with_file, serial_to_file-parse_file, serial_to_file-invalid}

-- A file of one byte is the number 7.
abbrev disk : Disk sample_env
disk = record {
  openable = λ path. true;
  creatable = λ path. true;
  write_all = λ path text. (text, true);
  from_reader = λ text. ok (Value.number (pos 7));
}

abbrev name : Bytes
name = b'h' ∷ []

abbrev text : Bytes
text = b'v' ∷ []

name-IsText : IsText world 16 name
unfolding c_string is_utf8
name-IsText = record {
  memory = b'h' ∷ 0 ∷ [];
  pointer = refl;
  pointed = refl;
  ended = refl;
  utf8 = refl;
}

seven : into_with_recursion_limit world.heap 1 5 ≡ some (Value.number (pos 7))
unfolding into_with_recursion_limit
seven = refl

handle : get_with_id storage.json_handles (pos 2) ≡ some 1
unfolding get_with_id lookup
handle = refl

serial_to_file-parse_file_example :
    (w' : World sample_env) × (grip_json_serial_to_file disk (pos 2) 16 true (pos 5) world
      ≡ done (pos 1) w')
    × (w' ≡ with_file (with_file world name []) name text)
    × (grip_json_parse_file disk 16 0 (pos 0) w' ≡ init_json (Value.number (pos 7)) w')
serial_to_file-parse_file_example =
    serial_to_file-parse_file disk world storage (pos 2) 1 5 16 name true (Value.number (pos 7))
      text 0 (pos 0) refl handle name-IsText seven refl refl refl refl refl

no_handle_9 : get_with_id storage.json_handles (pos 9) ≡ none
unfolding get_with_id lookup
no_handle_9 = refl

serial_to_file-invalid_example :
    (w' : World sample_env) × (grip_json_serial_to_file disk (pos 9) 16 true (pos 5) world
      ≡ done (pos 0) (logging w' (Message.invalid_json (pos 9))))
    × (w'.files name ≡ some [])
    × (w'.heap ≡ world.heap)
    × (w'.storage ≡ world.storage)
serial_to_file-invalid_example =
    serial_to_file-invalid disk world storage (pos 9) 16 name true (pos 5) refl no_handle_9
      name-IsText refl
