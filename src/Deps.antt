-- ===== src/Deps.antt =====
-- The packages that the code stands on, as parameters: `indexmap`, `serde_json`'s numbers, and the
-- width of the target's words. A law is what the package's documentation says of the operation.
pub mod Sample
pub mod Laws
use grip.Common.{
  Bool, ◌<◌, ◌^◌, ℕ, ◌≡◌, Option, none, some, List, [], ◌∷◌, if◌then◌else◌, length, get_elem?, All,
}
use grip.Common.Int.{ℤ, pos, negsuc}
use grip.Common.Bytes.{Bytes, bytes_eq}

-- A map's entries in the order of iteration: a key, and the address of the slot that it names.
abbrev pub Entries : Type 0
Entries = List (Bytes × ℕ)

unfoldable pub find : Bytes → Entries → Option ℕ
find k [] = none
find k ((j, s) ∷ es) = if bytes_eq j k then some s else find k es

-- An equivalent key keeps its place, a new one goes to the end.
unfoldable pub upsert : Bytes → ℕ → Entries → Entries
upsert k s [] = (k, s) ∷ []
upsert k s ((j, t) ∷ es) =
    let rest = upsert k s es in if bytes_eq j k then (j, s) ∷ es else (j, t) ∷ rest

abbrev pub Distinct : Entries → Type 0
Distinct [] = Unit {0}
Distinct ((k, _) ∷ es) = (find k es ≡ none) × Distinct es

-- `IndexMap<String, Rc<RefCell<GCValue>>, FnvBuildHasher>`.
pub record IndexMap : Type 1 where
  pub Map : Type 0
  pub entries : Map → Entries
  pub get : Map → Bytes → Option ℕ
  pub get_index : Map → ℕ → Option (Bytes × ℕ)
  pub len : Map → ℕ
  pub insert : Map → Bytes → ℕ → Map
  pub remove : Map → Bytes → Map
  pub clear : Map → Map
  pub collect : Entries → Map
  pub entries-Distinct : (m : Map) → Distinct (entries m)
  pub get-find : (m : Map) (k : Bytes) → get m k ≡ find k (entries m)
  pub get_index-entries : (m : Map) (i : ℕ) → get_index m i ≡ get_elem? (entries m) i
  pub len-entries : (m : Map) → len m ≡ length (entries m)
  pub entries-insert :
      (m : Map) (k : Bytes) (s : ℕ) → entries (insert m k s) ≡ upsert k s (entries m)
  pub get-remove :
      (m : Map) (k j : Bytes) → get (remove m k) j ≡ (if bytes_eq k j then none else get m j)
  pub remove-All :
      (P : Bytes × ℕ → Type 0) (m : Map) (k : Bytes)
      → All P (entries m)
      → All P (entries (remove m k))
  pub entries-clear : (m : Map) → entries (clear m) ≡ []
  pub collect-All :
      (P : Bytes × ℕ → Type 0) (es : Entries) → All P es → All P (entries (collect es))
  pub entries-collect : (es : Entries) → Distinct es → entries (collect es) ≡ es

-- The integers that an `i64` holds, and so every cell.
abbrev pub IsI64 : ℤ → Type 0
IsI64 (pos n) = n < 2 ^ 63
IsI64 (negsuc n) = n < 2 ^ 63

-- `serde_json::Number`, with the floating-point type of the conversions.
pub record Numbers : Type 1 where
  pub Number : Type 0
  pub Float : Type 0
  pub float_zero : Float
  pub as_i64 : Number → Option ℤ
  pub as_f64 : Number → Option Float
  -- `x.approx_eq(&-1.0, …)`, `x >= 0.0` and `(x * 1000.0) as u64`.
  pub is_minus_one : Float → Bool
  pub is_nonnegative : Float → Bool
  pub to_millis : Float → ℕ
  -- `as f32`.
  pub to_f32 : Float → Float
  pub of_cell : ℤ → Number
  -- `None` for an infinity or a NaN, which `json!` turns into `null`.
  pub of_float : Float → Option Number
  pub as_i64-of_cell : (z : ℤ) → IsI64 z → as_i64 (of_cell z) ≡ some z

pub record Deps : Type 1 where
  pub indexmap : IndexMap
  pub open indexmap use *
  pub numbers : Numbers
  pub open numbers use *
  -- `isize::MAX` of the target.
  pub isize_max : ℕ
