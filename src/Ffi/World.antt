-- ===== src/Ffi/World.antt =====
-- The state behind the exported functions, and how one of them runs. `ModuleStorage` and `MODULE`
-- are those of rust/src/ffi/mod.rs. Beside them stand the JSON heap, the memory of the C side that
-- pointers lead into, and the list of what was logged.
use grip.Common.{ℕ, Option, none, some, List}
use grip.Common.Int.{ℤ}
use grip.Common.Bytes.{Bytes}
use grip.Errors.{Error, Result}
use grip.Env.{Env}
use grip.CellMap.{CellMap}
use grip.Gc.Heap.{Heap}
use grip.Queue.{Queue, Response, RequestOptions}

abbrev pub Failure : Env → Type 0
Failure e = Error e.HttpError e.JsonError

pub record ModuleStorage (e : Env) : Type 0 where
  pub global_queue : Queue e
  pub current_response : Option (Result (Response e) (Failure e))
  pub bodies_handles : CellMap Bytes
  -- A `RequestCancellation` is the sender of its channel.
  pub cancellations_handles : CellMap ℕ
  pub json_handles : CellMap ℕ
  pub options_handles : CellMap (RequestOptions e)
  pub callbacks_per_frame : ℕ
  pub microseconds_delay_between_attempts : ℕ

pub record World (e : Env) : Type 0 where
  pub storage : Option (ModuleStorage e)
  pub heap : Heap e.deps
  -- What a `char` pointer leads to: the bytes from it on. 0 is the null pointer.
  pub memory : ℕ → Option Bytes
  -- What a `float` pointer leads to, if it does.
  pub floats : ℕ → Option e.Float
  -- The contents of the files, by their paths.
  pub files : Bytes → Option Bytes
  pub logged : List (Failure e)
  -- `LAST_TIME`: when cycles were last collected, in nanoseconds.
  pub last_collection : Option ℕ

-- `leave` is the early `return` of the logging macros; `fault` is undefined behaviour, such as a
-- read through a null pointer.
pub data Outcome (e : Env) (A : Type 0) : Type 0 where
  done : A → World e → Outcome e A
  leave : ℤ → World e → Outcome e A
  panic : World e → Outcome e A
  fault : Outcome e A

abbrev pub M : Env → Type 0 → Type 0
M e A = World e → Outcome e A

module _ {e : Env} where
  abbrev pub pure : {A : Type 0} → A → M e A
  pure = done

  abbrev pub and_then : {A B : Type 0} → Outcome e A → (A → M e B) → Outcome e B
  and_then (done a w) f = f a w
  and_then (leave c w) f = leave c w
  and_then (panic w) f = panic w
  and_then fault f = fault

  infixl 5 ◌>>=◌ ◌>>◌
  abbrev pub ◌>>=◌ : {A B : Type 0} → M e A → (A → M e B) → M e B
  ◌>>=◌ m f w = and_then (m w) f

  abbrev pub ◌>>◌ : {A B : Type 0} → M e A → M e B → M e B
  m >> k = m >>= λ _. k

  abbrev pub gets : {A : Type 0} → (World e → A) → M e A
  gets f w = done (f w) w

  abbrev pub panics : {A : Type 0} → M e A
  panics w = panic w

  abbrev pub faults : {A : Type 0} → M e A
  faults w = fault

  -- What a caller sees of a whole function: an early return is a return.
  abbrev pub returned : Outcome e ℤ → Outcome e ℤ
  returned (done c w) = done c w
  returned (leave c w) = done c w
  returned (panic w) = panic w
  returned fault = fault

  abbrev pub exported : M e ℤ → M e ℤ
  exported m w = returned (m w)

  -- An `Option` that is `unwrap`ped, and one that must not be `none`.
  abbrev pub unwrap : {A : Type 0} → Option A → M e A
  unwrap none = panics
  unwrap (some a) = pure a

  abbrev pub assume : {A : Type 0} → Option A → M e A
  assume none = faults
  assume (some a) = pure a
