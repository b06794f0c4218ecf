-- ===== src/Env.antt =====
-- The other packages, as parameters: `reqwest` and `serde_json`'s reader and writer, and the text
-- that `error_chain` prints. `none` is a panic of the package where the comment says so.
pub mod Sample
use grip.Common.{Bool, Option, ℕ}
use grip.Common.Bytes.{Bytes}
use grip.Errors.{Result, Error}
use grip.Deps.{Deps}
use grip.Gc.Value.{Value}

pub record Env : Type 1 where
  pub deps : Deps
  pub open deps use *
  -- `reqwest`
  pub Url : Type 0
  pub parse_url : Bytes → Option Url
  pub HeaderMap : Type 0
  pub HeaderValue : Type 0
  pub no_headers : HeaderMap
  pub header_value : Bytes → Option HeaderValue
  -- `none` if the name is no header name: `HeaderMap::insert` panics.
  pub insert_header : HeaderMap → Bytes → HeaderValue → Option HeaderMap
  pub HttpError : Type 0
  -- `serde_json`
  pub JsonError : Type 0
  pub from_slice : Bytes → Result (Value deps) JsonError
  pub to_string : Bool → Value deps → Option Bytes
  -- `display_chain`
  pub display_chain : Error HttpError JsonError → Bytes
