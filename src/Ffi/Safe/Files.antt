-- ===== src/Ffi/Safe/Files.antt =====
-- The functions of rust/src/ffi/mod.rs on files keep a sound world.
use grip.Common.{ℕ, ◌+◌, ◌*◌, refl, Bool, false, none, some, [], if◌then◌else◌}
use grip.Common.Int.{ℤ, pos}
use grip.Common.Bytes.{Bytes}
use grip.Errors.{Message}
use grip.Env.{Env}
use grip.CellMap
use grip.CellMap.{get_with_id, lookup}
use grip.Utf8.{is_utf8}
use grip.Ffi.World.{World, pure}
use grip.Ffi.Ext.{chain_err}
use grip.Ffi.Files.{
  Disk, put_file, open_file, create_file, grip_json_parse_file, grip_json_serial_to_file,
}
use grip.Ffi.Init.{
  Ini, queue_name, callbacks_name, delay_name, parse_usize, config_value, module_of, grip_init,
}
use grip.Ffi.Safe.{
  Sound, Onward-refl, Onward-trans, Fine, Any, Fine-pure, Fine-bind, Fine-map, Ends, Ends-bind,
  Fine-Ends, Ends-returned,
}
use grip.Ffi.Safe.Macros.{
  Readable, put_module-Fine, c_str-Fine, try_and_log_ffi-Fine, try_str_from_ptr-Fine, unwrap-Fine,
}
use grip.Ffi.Safe.Arrays.{exported-Ends}
use grip.Ffi.Safe.Values.{Writable, Writable-Onward, serialized-Fine}
use grip.Ffi.Safe.Module.{parsed-Ends}

module _ {e : Env} where
  put_file-Fine :
      {w : World e} (path content : Bytes) → Sound w → Fine w Any (put_file path content w)
  put_file-Fine {w} path content s =
      Fine.goes (record { heap = s.heap; handles = s.handles })
        (record { heap = (Onward-refl w).heap; memory = refl; floats = λ p x h. (x, h) }) tt

  create_file-Fine :
      {w : World e} (disk : Disk e) (path : Bytes) → Sound w → Fine w Any (create_file disk path w)
  unfolding create_file
  create_file-Fine disk path s =
      Fine-bind {f = λ _. put_file path []}
        (try_and_log_ffi-Fine
          (chain_err (if disk.creatable path then some tt else none) Message.cannot_create) s)
        λ _ v sv g q. put_file-Fine path [] sv

  pub grip_json_parse_file-Ends :
      (w : World e) (disk : Disk e) (file buffer : ℕ) (size : ℤ)
      → Sound w
      → Readable file w
      → Writable buffer size w
      → Ends (grip_json_parse_file disk file buffer size w)
  unfolding grip_json_parse_file open_file
  grip_json_parse_file-Ends w disk file buffer size s r b = Ends-returned (
      Ends-bind (try_str_from_ptr-Fine Message.not_utf8 s r) λ path v sv g q.
        Ends-bind
          (try_and_log_ffi-Fine
            (chain_err (if disk.openable path then v.files path else none) Message.cannot_open) sv)
          λ content u su h k.
            parsed-Ends (disk.from_reader content) su (Writable-Onward (Onward-trans g h) b))

  pub grip_json_serial_to_file-Ends :
      (w : World e) (disk : Disk e) (value : ℤ) (file : ℕ) (pretty : Bool) (limit : ℤ)
      → Sound w
      → Readable file w
      → Ends (grip_json_serial_to_file disk value file pretty limit w)
  unfolding grip_json_serial_to_file
  grip_json_serial_to_file-Ends w disk value file pretty limit s r = exported-Ends {Q = Any} (
      Fine-bind (try_str_from_ptr-Fine Message.bad_pointer s r) λ path v sv g q.
        Fine-bind {f = λ _. _} (create_file-Fine disk path sv) λ _ v₁ s₁ g₁ q₁.
          Fine-bind (serialized-Fine value pretty false limit s₁) λ t v₂ s₂ g₂ q₂.
            let (content, written) = disk.write_all path t in
            Fine-bind {f = λ _. _} (put_file-Fine path content s₂) λ _ v₃ s₃ g₃ q₃.
              Fine-bind {f = λ _. pure (pos 1)}
                (try_and_log_ffi-Fine
                  (chain_err (if written then some tt else none) Message.cannot_write) s₃)
                λ _ v₄ s₄ g₄ q₄. Fine-pure s₄ tt)

  config_value-Fine :
      {w : World e} (ini : Ini) (s : ini.Section) (name : Bytes)
      → Sound w
      → Fine w Any (config_value ini s name w)
  unfolding config_value
  config_value-Fine ini s name sw =
      Fine-bind (unwrap-Fine (ini.get s name) sw) λ t v sv g q.
        Fine-map (unwrap-Fine (parse_usize (2 * e.isize_max + 1) t) sv) λ n u su h k. tt

  pub grip_init-Ends :
      (w : World e) (ini : Ini) (config_file_path : ℕ)
      → Sound w
      → Readable config_file_path w
      → Ends (grip_init ini config_file_path w)
  unfolding grip_init module_of CellMap.new get_with_id lookup
  grip_init-Ends w ini config_file_path s r = Fine-Ends {Q = Any} (
      Fine-bind (c_str-Fine s r) λ bytes v sv g q.
        Fine-bind (unwrap-Fine (if is_utf8 bytes then some bytes else none) sv) λ path v₁ s₁ g₁ q₁.
          Fine-bind (unwrap-Fine (ini.load_from_file v₁.files path) s₁) λ file v₂ s₂ g₂ q₂.
            Fine-bind (unwrap-Fine (ini.section file queue_name) s₂) λ x v₃ s₃ g₃ q₃.
              Fine-bind (config_value-Fine ini x callbacks_name s₃) λ callbacks v₄ s₄ g₄ q₄.
                Fine-bind (config_value-Fine ini x delay_name s₄) λ delay v₅ s₅ g₅ q₅.
                  put_module-Fine (module_of callbacks delay) s₅ λ id a k. absurd cc)
