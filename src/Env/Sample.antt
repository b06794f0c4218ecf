-- ===== src/Env/Sample.antt =====
-- A concrete instance of all packages, at which the theorems are applied. Addresses are their own
-- texts, the JSON reader accepts everything as `null`, and the writer prints one byte.
use grip.Common.{ℕ, some, List, [], ◌∷◌}
use grip.Common.Bytes.{Bytes}
use grip.Deps.Sample.{sample}
use grip.Errors.{ok}
use grip.Gc.Value.{Value}
use grip.Env.{Env}

abbrev pub sample_env : Env
sample_env = record {
  deps = sample;
  Url = Bytes;
  parse_url = some;
  HeaderMap = List (Bytes × Bytes);
  HeaderValue = Bytes;
  no_headers = [];
  header_value = some;
  insert_header = λ m k v. some ((k, v) ∷ m);
  HttpError = ℕ;
  JsonError = ℕ;
  from_slice = λ s. ok Value.null;
  to_string = λ pretty v. some (b'v' ∷ []);
  display_chain = λ x. b'e' ∷ [];
}
