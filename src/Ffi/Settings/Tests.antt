-- ===== src/Ffi/Settings/Tests.antt =====
-- A configuration in the small world.
use grip.Common.{◌≡◌, inl, refl, true, some, none, [], ◌∷◌, arith, if◌then◌else◌}
use grip.Common.Bytes.{Bytes, c_string, bytes_eq}
use grip.Utf8.{is_utf8}
use grip.Env.Sample.{sample_env}
use grip.Ffi.World.{ModuleStorage, done}
use grip.Ffi.Requests.{grip_is_initialized}
use grip.Ffi.Init.{Ini, queue_name, callbacks_name, grip_init}
use grip.Ffi.Members.{IsText}
use grip.Ffi.Sample.{world}
use grip.Ffi.Settings.{Config, Fresh, init-Fresh}

abbrev four : Bytes
four = b'4' ∷ []

abbrev fifty : Bytes
fifty = b'5' ∷ b'0' ∷ []

-- A reader for which every file has the two numbers.
abbrev ini : Ini
ini = record {
  File = Unit {0};
  Section = Unit {0};
  load_from_file = λ files path. some tt;
  section = λ file name. if bytes_eq name queue_name then some tt else none;
  get = λ s name. if bytes_eq name callbacks_name then some four else some fifty;
}

name-IsText : IsText world 16 (b'h' ∷ [])
unfolding c_string is_utf8
name-IsText = record {
  memory = b'h' ∷ 0 ∷ [];
  pointer = refl;
  pointed = refl;
  ended = refl;
  utf8 = refl;
}

config : Config ini world (b'h' ∷ []) 4 50
unfolding bytes_eq
config = record {
  file = tt;
  loaded = refl;
  queue = tt;
  found = refl;
  callbacks_text = four;
  has_callbacks = refl;
  callbacks_Numeral = inl (((omega arith, omega arith), tt), refl, omega arith);
  delay_text = fifty;
  has_delay = refl;
  delay_Numeral =
      inl (((omega arith, omega arith), ((omega arith, omega arith), tt)), refl, omega arith);
}

init-Fresh_example :
    (m : ModuleStorage sample_env) × (grip_init ini 16 world
      ≡ done tt (record world { storage = some m }))
    × Fresh m
    × (m.callbacks_per_frame ≡ 4)
    × (m.microseconds_delay_between_attempts ≡ 50)
    × (grip_is_initialized (record world { storage = some m })
        ≡ done true (record world { storage = some m }))
init-Fresh_example = init-Fresh ini world 16 (b'h' ∷ []) 4 50 name-IsText config
