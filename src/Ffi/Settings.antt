-- ===== src/Ffi/Settings.antt =====
-- What `grip_init` makes of a configuration.
mod Tests
use grip.Common.{
  ℕ, ◌+◌, ◌*◌, ◌-◌, ◌≤◌, ◌<◌, ◌≡◌, ◌↔◌, ◌⊎◌, inl, inr, refl, sym, ap, ◌∙◌, subst, Bool, true, false,
  ◌&&◌, Bool-cases, Option, none, some, [], ◌∷◌, arith, All, if◌then◌else◌, ◌==◌, leb,
}
use mathlib.Core.Option.{some-injective, some-ne-none}
use grip.Common.Int.{ℤ, pos}
use grip.Common.Bytes.{Bytes}
use grip.Env.{Env}
use grip.CellMap
use grip.CellMap.{get_with_id, lookup}
use grip.Ffi.World.{World, ModuleStorage, done, panic, M, pure, and_then}
use grip.Utf8.{is_utf8}
use grip.Queue
use grip.Ffi.Ext.{c_str, put_module}
use grip.Ffi.Requests.{grip_is_initialized}
use grip.Ffi.Issues.{c_str-read}
use grip.Ffi.Members.{IsText}
use grip.Ffi.Init.{
  Ini, parse_digits, parse_usize, queue_name, callbacks_name, delay_name, config_value, module_of,
  grip_init,
}

-- A decimal digit, and the number that digits stand for behind the number `n`.
abbrev pub IsDigit : ℕ → Type 0
IsDigit c = (48 ≤ c) × (c ≤ 57)

abbrev pub value : ℕ → Bytes → ℕ
value n [] = n
value n (c ∷ s) = value (n * 10 + (c - 48)) s

value-above : (n : ℕ) (s : Bytes) → n ≤ value n s
value-above n [] = omega arith
value-above n (c ∷ s) = omega (arith, value-above (n * 10 + (c - 48)) s)

-- The digits of a number that fits.
abbrev pub Digits : ℕ → Bytes → ℕ → Type 0
Digits max s n = All IsDigit s × (value 0 s ≡ n) × (n ≤ max)

step :
    (max n c : ℕ)
    → IsDigit c
    → n * 10 + (c - 48) ≤ max
    → (leb 48 c && leb c 57 && leb (n * 10 + (c - 48)) max) ≡ true
step max n c d l = ground arith

digits-parse :
    (max n : ℕ) (s : Bytes)
    → All IsDigit s
    → value n s ≤ max
    → parse_digits max n s ≡ some (value n s)
unfolding parse_digits
digits-parse max n [] d l = refl
digits-parse max n (c ∷ s) d l =
    rw (step max n c d.0 (omega (arith, value-above (n * 10 + (c - 48)) s)))
      (digits-parse max (n * 10 + (c - 48)) s d.1 l)

-- What `parse_usize` accepts: at least one digit, with a plus sign in front or not.
abbrev pub Numeral : ℕ → Bytes → ℕ → Type 0
Numeral max [] n = ⊥
Numeral max (c ∷ s) n =
    Digits max (c ∷ s) n ⊎ ((c ≡ b'+') × (d : ℕ) × (t : Bytes) × (s ≡ d ∷ t) × Digits max s n)

Digits-some : (max n : ℕ) (s : Bytes) → Digits max s n → parse_digits max 0 s ≡ some n
Digits-some max n s (d, v, l) = digits-parse max 0 s d (omega (arith, v, l)) ∙ ap some v

not_plus : (c : ℕ) → IsDigit c → (c == b'+') ≡ false
not_plus c d = ground arith

is_plus : (c : ℕ) → c ≡ b'+' → (c == b'+') ≡ true
is_plus c e = ground arith

Numeral-parse : (max n : ℕ) (s : Bytes) → Numeral max s n → parse_usize max s ≡ some n
unfolding parse_usize
Numeral-parse max n [] h = absurd h
Numeral-parse max n (c ∷ []) (inl d) = Digits-some max n (c ∷ []) d
Numeral-parse max n (c ∷ []) (inr (p, d, t, q, ds)) = absurd cc
Numeral-parse max n (c ∷ d ∷ s) (inl ds) = rw (not_plus c ds.0.0) (Digits-some max n (c ∷ d ∷ s) ds)
Numeral-parse max n (c ∷ d ∷ s) (inr (p, d', t, q, ds)) =
    rw (is_plus c p) (Digits-some max n (d ∷ s) ds)

-- A configuration file at `path` that can be loaded and has both numbers in its section [queue].
pub record Config {e : Env} (ini : Ini) (w : World e) (path : Bytes) (callbacks delay : ℕ)
    : Type 0 where
  pub file : ini.File
  pub loaded : ini.load_from_file w.files path ≡ some file
  pub queue : ini.Section
  pub found : ini.section file queue_name ≡ some queue
  pub callbacks_text : Bytes
  pub has_callbacks : ini.get queue callbacks_name ≡ some callbacks_text
  pub callbacks_Numeral : Numeral (2 * e.isize_max + 1) callbacks_text callbacks
  pub delay_text : Bytes
  pub has_delay : ini.get queue delay_name ≡ some delay_text
  pub delay_Numeral : Numeral (2 * e.isize_max + 1) delay_text delay

-- A module in which nothing has been issued.
pub record Fresh {e : Env} (m : ModuleStorage e) : Type 0 where
  pub bodies : (id : ℤ) → get_with_id m.bodies_handles id ≡ none
  pub cancellations : (id : ℤ) → get_with_id m.cancellations_handles id ≡ none
  pub values : (id : ℤ) → get_with_id m.json_handles id ≡ none
  pub options : (id : ℤ) → get_with_id m.options_handles id ≡ none
  pub response : m.current_response ≡ none
  pub pending : m.global_queue.number_of_pending_requests ≡ 0
  pub on : m.global_queue.working_thread ≡ true

module _ {e : Env} where
  number_read :
      (ini : Ini) (s : ini.Section) (name text : Bytes) (n : ℕ) (w : World e)
      → ini.get s name ≡ some text
      → Numeral (2 * e.isize_max + 1) text n
      → config_value ini s name w ≡ done n w
  unfolding config_value
  number_read ini s name text n w g h =
      rw g (rw (Numeral-parse (2 * e.isize_max + 1) n text h) refl)

  path_read : (w : World e) (p : ℕ) (path : Bytes) → IsText w p path → c_str p w ≡ done path w
  path_read w p path t = c_str-read w p t.memory path t.pointer t.pointed t.ended

-- With the path of a configuration that can be loaded and has both numbers, `grip_init` returns, and
-- the module is then initialised with these numbers: all four tables of handles are empty, no
-- response is current, no request is pending and the queue runs. Nothing else in the world changes.
pub init-Fresh :
    {e : Env} (ini : Ini) (w : World e) (p : ℕ) (path : Bytes) (callbacks delay : ℕ)
    → IsText w p path
    → Config ini w path callbacks delay
    → (m : ModuleStorage e) × (grip_init ini p w ≡ done tt (record w { storage = some m }))
      × Fresh m
      × (m.callbacks_per_frame ≡ callbacks)
      × (m.microseconds_delay_between_attempts ≡ delay)
      × (grip_is_initialized (record w { storage = some m })
          ≡ done true (record w { storage = some m }))
unfolding grip_init module_of put_module CellMap.new Queue.new get_with_id lookup
    grip_is_initialized
init-Fresh ini w p path callbacks delay t c = (
  module_of callbacks delay,
  rw (grip_init, path_read w p path t)
      (rw t.utf8 (
        rw c.loaded (
          rw c.found (
            rw
              (
                grip_init,
                number_read ini c.queue callbacks_name c.callbacks_text callbacks w c.has_callbacks
                    c.callbacks_Numeral,
              )
              (rw
                (
                  grip_init,
                  number_read ini c.queue delay_name c.delay_text delay w c.has_delay
                      c.delay_Numeral,
                )
                refl))))),
  record {
    bodies = λ id. refl;
    cancellations = λ id. refl;
    values = λ id. refl;
    options = λ id. refl;
    response = refl;
    pending = refl;
    on = refl;
  },
  refl,
  refl,
  refl,
)
