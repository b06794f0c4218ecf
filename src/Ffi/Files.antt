-- ===== src/Ffi/Files.antt =====
-- rust/src/ffi/mod.rs: the functions on files.
use grip.Common.{ℕ, Bool, false, none, some, [], if◌then◌else◌}
use grip.Common.Int.{ℤ, pos}
use grip.Common.Bytes.{Bytes, bytes_eq}
use grip.Errors.{Result, Message}
use grip.Env.{Env}
use grip.Gc.Value.{Value}
use grip.Ffi.World.{M, pure, ◌>>=◌, ◌>>◌, exported}
use grip.Ffi.Ext.{try_and_log_ffi, try_str_from_ptr, chain_err}
use grip.Ffi.Values.{serialized}
use grip.Ffi.Responses.{parsed}

-- The operating system's files, and what `serde_json` reads from one.
pub record Disk (e : Env) : Type 0 where
  pub openable : Bytes → Bool
  pub creatable : Bytes → Bool
  -- What is in the file once the writer of a text has been dropped, and whether `write_all` was ok.
  pub write_all : Bytes → Bytes → Bytes × Bool
  pub from_reader : Bytes → Result (Value e.deps) e.JsonError

module _ {e : Env} where
  abbrev pub put_file : Bytes → Bytes → M e (Unit {0})
  put_file path content w =
      pure tt (record w { files = λ p. if bytes_eq path p then some content else w.files p })

  -- `File::open`
  unfoldable pub open_file : Disk e → Bytes → M e Bytes
  unfolding try_and_log_ffi
  open_file disk path w =
      try_and_log_ffi
        (chain_err (if disk.openable path then w.files path else none) Message.cannot_open) w

  -- `File::create` empties the file.
  unfoldable pub create_file : Disk e → Bytes → M e (Unit {0})
  unfolding try_and_log_ffi
  create_file disk path = do
    try_and_log_ffi
        (chain_err (if disk.creatable path then some tt else none) Message.cannot_create)
    put_file path []

  unfoldable pub grip_json_parse_file : Disk e → ℕ → ℕ → ℤ → M e ℤ
  unfolding try_str_from_ptr open_file parsed
  grip_json_parse_file disk file error_buffer error_buffer_size = exported do
    path ← try_str_from_ptr file Message.not_utf8
    content ← open_file disk path
    parsed error_buffer error_buffer_size (disk.from_reader content)

  -- The file is created before the handle and the limit are looked at.
  unfoldable pub grip_json_serial_to_file : Disk e → ℤ → ℕ → Bool → ℤ → M e ℤ
  unfolding try_str_from_ptr create_file serialized try_and_log_ffi
  grip_json_serial_to_file disk value file pretty recursion_limit = exported do
    path ← try_str_from_ptr file Message.bad_pointer
    create_file disk path
    s ← serialized value pretty false recursion_limit
    let (content, written) = disk.write_all path s
    put_file path content
    try_and_log_ffi (chain_err (if written then some tt else none) Message.cannot_write)
    pure (pos 1)
