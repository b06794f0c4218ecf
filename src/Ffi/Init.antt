-- ===== src/Ffi/Init.antt =====
-- rust/src/ffi/mod.rs: `grip_init`, which reads the configuration.
use grip.Common.{ℕ, ◌+◌, ◌*◌, ◌-◌, ◌&&◌, Option, none, some, [], ◌∷◌, if◌then◌else◌, ◌==◌, leb}
use grip.Common.Bytes.{Bytes}
use grip.Env.{Env}
use grip.Utf8.{is_utf8}
use grip.CellMap
use grip.Ffi.World.{ModuleStorage, M, ◌>>=◌, unwrap}
use grip.Ffi.Ext.{c_str, put_module}
use grip.Queue

-- The reader of INI files: what it makes of a file, its sections and their keys.
pub record Ini : Type 1 where
  pub File : Type 0
  pub Section : Type 0
  pub load_from_file : (Bytes → Option Bytes) → Bytes → Option File
  pub section : File → Bytes → Option Section
  pub get : Section → Bytes → Option Bytes

-- `str::parse::<usize>`: an optional plus sign and at least one digit, up to the largest `usize`.
unfoldable pub parse_digits : ℕ → ℕ → Bytes → Option ℕ
parse_digits max n [] = some n
parse_digits max n (c ∷ s) =
    let rest = parse_digits max (n * 10 + (c - 48)) s in
    if leb 48 c && leb c 57 && leb (n * 10 + (c - 48)) max then rest else none

unfoldable pub parse_usize : ℕ → Bytes → Option ℕ
unfolding parse_digits
parse_usize max [] = none
parse_usize max (c ∷ []) = parse_digits max 0 (c ∷ [])
parse_usize max (c ∷ d ∷ s) =
    if c == b'+' then parse_digits max 0 (d ∷ s) else parse_digits max 0 (c ∷ d ∷ s)

-- The names in the file.
abbrev pub queue_name : Bytes
queue_name = b'q' ∷ b'u' ∷ b'e' ∷ b'u' ∷ b'e' ∷ []

abbrev pub callbacks_name : Bytes
callbacks_name =
    b'c' ∷ b'a' ∷ b'l' ∷ b'l' ∷ b'b' ∷ b'a' ∷ b'c' ∷ b'k' ∷ b's' ∷ b'-' ∷ b'p' ∷ b'e' ∷ b'r' ∷ b'-'
    ∷ b'f' ∷ b'r' ∷ b'a' ∷ b'm' ∷ b'e' ∷ []

abbrev pub delay_name : Bytes
delay_name =
    b'm' ∷ b'i' ∷ b'c' ∷ b'r' ∷ b'o' ∷ b's' ∷ b'e' ∷ b'c' ∷ b'o' ∷ b'n' ∷ b'd' ∷ b's' ∷ b'-' ∷ b'd'
    ∷ b'e' ∷ b'l' ∷ b'a' ∷ b'y' ∷ b'-' ∷ b'b' ∷ b'e' ∷ b't' ∷ b'w' ∷ b'e' ∷ b'e' ∷ b'n' ∷ b'-'
    ∷ b'a' ∷ b't' ∷ b't' ∷ b'e' ∷ b'm' ∷ b'p' ∷ b't' ∷ b's' ∷ []

module _ {e : Env} where
  -- The module that a configuration gives.
  unfoldable pub module_of : ℕ → ℕ → ModuleStorage e
  unfolding CellMap.new Queue.new
  module_of callbacks delay = record {
    global_queue = Queue.new;
    current_response = none;
    bodies_handles = CellMap.new;
    cancellations_handles = CellMap.new;
    json_handles = CellMap.new;
    options_handles = CellMap.new;
    callbacks_per_frame = callbacks;
    microseconds_delay_between_attempts = delay;
  }

  -- One number of the section: both the key and the number are `unwrap`ped.
  unfoldable pub config_value : (ini : Ini) → ini.Section → Bytes → M e ℕ
  unfolding parse_usize
  config_value ini s name = do
    text ← unwrap (ini.get s name)
    unwrap (parse_usize (2 * e.isize_max + 1) text)

  unfoldable pub grip_init : Ini → ℕ → M e (Unit {0})
  unfolding c_str config_value module_of put_module
  grip_init ini config_file_path = do
    bytes ← c_str config_file_path
    path ← unwrap (if is_utf8 bytes then some bytes else none)
    file ← (λ w. unwrap (ini.load_from_file w.files path) w)
    s ← unwrap (ini.section file queue_name)
    callbacks ← config_value ini s callbacks_name
    delay ← config_value ini s delay_name
    put_module (module_of callbacks delay)
