-- ===== src/Ffi/Saves.antt =====
-- What is in a file after `grip_json_serial_to_file`.
mod Tests
use grip.Common.{
  ℕ, ◌≡◌, refl, sym, ap, ◌∙◌, Bool, true, false, none, some, [], ◌∷◌, ◌++◌, append-nil,
  if◌then◌else◌, arith,
}
use grip.Common.Int.{ℤ, pos}
use grip.Common.Bytes.{Bytes, bytes_eq, bytes_eq_refl}
use grip.Errors.{ok, err, Message}
use grip.Env.{Env}
use grip.CellMap.{get_with_id}
use grip.Gc.Value.{Value}
use grip.Gc.Convert.{into_with_recursion_limit}
use grip.Ffi.World.{
  World, ModuleStorage, Outcome, done, leave, panic, fault, M, pure, and_then, returned,
}
use grip.Ffi.Ext.{get_module, try_and_log_ffi, try_as_usize}
use grip.Ffi.Values.{serialize_to_string, serialized, init_json}
use grip.Ffi.Responses.{parsed}
use grip.Ffi.Files.{Disk, open_file, create_file, grip_json_parse_file, grip_json_serial_to_file}
use grip.Ffi.Handles.{get_handle, no_handle, logging}
use grip.Ffi.Members.{IsText, text_read}

module _ {e : Env} where
  -- The world with one file's content replaced.
  abbrev pub with_file : World e → Bytes → Bytes → World e
  with_file w path content = record w {
    files = λ p. if bytes_eq path p then some content else w.files p;
  }

  created :
      (disk : Disk e) (w : World e) (path : Bytes)
      → disk.creatable path ≡ true
      → create_file disk path w ≡ done tt (with_file w path [])
  unfolding create_file try_and_log_ffi
  created disk w path c = rw c refl

  opened :
      (disk : Disk e) (w : World e) (path content : Bytes)
      → disk.openable path ≡ true
      → w.files path ≡ some content
      → open_file disk path w ≡ done content w
  unfolding open_file try_and_log_ffi
  opened disk w path content o f = rw o (rw f refl)

  text_of :
      (w : World e) (m : ModuleStorage e) (value : ℤ) (a n : ℕ) (pretty : Bool) (x : Value e.deps)
      (text : Bytes)
      → w.storage ≡ some m
      → get_with_id m.json_handles value ≡ some a
      → into_with_recursion_limit w.heap a n ≡ some x
      → e.to_string pretty x ≡ some text
      → serialized value pretty false (pos n) w ≡ done text w
  unfolding serialized serialize_to_string try_as_usize try_and_log_ffi
  text_of w m value a n pretty x text s g i t =
      rw (serialized, get_handle w m value a s g)
        (rw i (rw (try_and_log_ffi, t) (rw (append-nil text) refl)))

-- A JSON value whose tree `x` prints as `text`, saved to a file that can be created and written:
-- `grip_json_serial_to_file` returns 1 and changes nothing but this file, whose content is then
-- `text`. If the reader makes `x` of that text and the file can be opened, a following
-- `grip_json_parse_file` does what the `init` functions do with `x`: a new tree behind a new handle.
pub serial_to_file-parse_file :
    {e : Env} (disk : Disk e) (w : World e) (m : ModuleStorage e) (value : ℤ) (a n file : ℕ)
    (path : Bytes) (pretty : Bool) (x : Value e.deps) (text : Bytes) (buffer : ℕ) (size : ℤ)
    → w.storage ≡ some m
    → get_with_id m.json_handles value ≡ some a
    → IsText w file path
    → into_with_recursion_limit w.heap a n ≡ some x
    → e.to_string pretty x ≡ some text
    → disk.creatable path ≡ true
    → disk.write_all path text ≡ (text, true)
    → disk.openable path ≡ true
    → disk.from_reader text ≡ ok x
    → (w' : World e) × (grip_json_serial_to_file disk value file pretty (pos n) w ≡ done (pos 1) w')
      × (w' ≡ with_file (with_file w path []) path text)
      × (grip_json_parse_file disk file buffer size w' ≡ init_json x w')
unfolding grip_json_serial_to_file grip_json_parse_file parsed init_json get_module try_and_log_ffi
serial_to_file-parse_file {e} disk w m value a n file path pretty x text buffer size s g t i j c k o
      r =
    let w₁ = with_file w path [] in
    let w' = with_file w₁ path text in
    let t' : IsText w' file path = record {
      memory = t.memory;
      pointer = t.pointer;
      pointed = t.pointed;
      ended = t.ended;
      utf8 = t.utf8;
    } in
    (
      w',
      rw (grip_json_serial_to_file, text_read w file path Message.bad_pointer t)
          (rw (grip_json_serial_to_file, created disk w path c)
            (rw (grip_json_serial_to_file, text_of w₁ m value a n pretty x text s g i j)
              (rw k refl))),
      refl,
      rw (grip_json_parse_file, text_read w' file path Message.not_utf8 t')
          (rw (grip_json_parse_file, opened disk w' path text o (rw (bytes_eq_refl path) refl))
            (rw r (rw s refl))),
    )

-- A handle that is not in use, with a text for the name of a file that can be created:
-- `grip_json_serial_to_file` logs the error and returns 0, and by then it has emptied the file,
-- whatever it held; the heap and the module's tables stay.
pub serial_to_file-invalid :
    {e : Env} (disk : Disk e) (w : World e) (m : ModuleStorage e) (value : ℤ) (file : ℕ)
    (path : Bytes) (pretty : Bool) (limit : ℤ)
    → w.storage ≡ some m
    → get_with_id m.json_handles value ≡ none
    → IsText w file path
    → disk.creatable path ≡ true
    → (w' : World e) × (grip_json_serial_to_file disk value file pretty limit w
        ≡ done (pos 0) (logging w' (Message.invalid_json value)))
      × (w'.files path ≡ some [])
      × (w'.heap ≡ w.heap)
      × (w'.storage ≡ w.storage)
unfolding grip_json_serial_to_file serialized
serial_to_file-invalid disk w m value file path pretty limit s g t c =
    let w' = with_file w path [] in
    (
      w',
      rw (grip_json_serial_to_file, text_read w file path Message.bad_pointer t)
          (rw (grip_json_serial_to_file, created disk w path c)
            (rw (grip_json_serial_to_file, no_handle w' m value s g) refl)),
      rw (bytes_eq_refl path) refl,
      refl,
      refl,
    )
