-- ===== src/Deps/Sample.antt =====
-- A concrete instance of the packages, at which the theorems are applied: maps as association
-- lists, numbers and floats as integers, and a target with 32-bit words.
use grip.Common.{
  ◌*◌, true, false, Bool-cases, inl, inr, ℕ, ◌≡◌, refl, none, some, [], ◌∷◌, arith, if◌then◌else◌,
  length, get_elem?, All, is_some,
}
use grip.Common.Int.{ℤ, pos, negsuc, int_eq}
use grip.Common.Bytes.{Bytes, bytes_eq, bytes_eq_iff}
use grip.Deps.Laws.{find-upsert}
use grip.Deps.{Entries, find, upsert, Distinct, IndexMap, Numbers, Deps}

pub erase : Bytes → Entries → Entries
erase k [] = []
erase k ((j, s) ∷ es) = let rest = erase k es in if bytes_eq j k then rest else (j, s) ∷ rest

pub gather : Entries → Entries
gather [] = []
gather ((k, s) ∷ es) = let rest = gather es in if is_some (find k rest) then rest else (k, s) ∷ rest

pub find-erase :
    (k j : Bytes) (es : Entries) → find j (erase k es) ≡ (if bytes_eq k j then none else find j es)
unfolding find erase
find-erase k j [] = ground arith
find-erase k j ((i, t) ∷ es) =
    ground (arith, bytes_eq_iff k j, bytes_eq_iff i k, bytes_eq_iff i j, find-erase k j es)

pub upsert-Distinct : (k : Bytes) (s : ℕ) (es : Entries) → Distinct es → Distinct (upsert k s es)
unfolding upsert find
upsert-Distinct k s [] h = (refl, tt)
upsert-Distinct k s ((j, t) ∷ es) h =
    ground
      (arith, bytes_eq_iff k j, bytes_eq_iff j k, find-upsert k j s es, upsert-Distinct k s es h.1)

pub erase-Distinct : (k : Bytes) (es : Entries) → Distinct es → Distinct (erase k es)
unfolding erase
erase-Distinct k [] h = tt
erase-Distinct k ((j, t) ∷ es) h = ground (arith, find-erase k j es, erase-Distinct k es h.1)

pub gather-Distinct : (es : Entries) → Distinct (gather es)
unfolding gather
gather-Distinct [] = tt
gather-Distinct ((k, s) ∷ es) = ground (arith, gather-Distinct es)

pub gather-eq : (es : Entries) → Distinct es → gather es ≡ es
unfolding gather
gather-eq [] h = refl
gather-eq ((k, s) ∷ es) h = ground (arith, gather-eq es h.1)

pub erase-All : (P : Bytes × ℕ → Type 0) (k : Bytes) (es : Entries) → All P es → All P (erase k es)
unfolding erase
erase-All P k [] h = tt
erase-All P k ((j, s) ∷ es) h = elim (Bool-cases (bytes_eq j k)) [
  | inl hit ↦ rw hit (erase-All P k es h.1)
  | inr miss ↦ rw miss (h.0, erase-All P k es h.1)
]

pub gather-All : (P : Bytes × ℕ → Type 0) (es : Entries) → All P es → All P (gather es)
unfolding gather
gather-All P [] h = tt
gather-All P ((k, s) ∷ es) h = elim (Bool-cases (is_some (find k (gather es)))) [
  | inl seen ↦ rw seen (gather-All P es h.1)
  | inr new ↦ rw new (h.0, gather-All P es h.1)
]

abbrev pub sample_map : IndexMap
sample_map = record {
  Map = (es : Entries) × Distinct es;
  entries = λ m. m.0;
  get = λ m k. find k m.0;
  get_index = λ m i. get_elem? m.0 i;
  len = λ m. length m.0;
  insert = λ m k s. (upsert k s m.0, upsert-Distinct k s m.0 m.1);
  remove = λ m k. (erase k m.0, erase-Distinct k m.0 m.1);
  clear = λ m. ([], tt);
  collect = λ es. (gather es, gather-Distinct es);
  entries-Distinct = λ m. m.1;
  get-find = λ m k. refl;
  get_index-entries = λ m i. refl;
  len-entries = λ m. refl;
  entries-insert = λ m k s. refl;
  get-remove = λ m k j. find-erase k j m.0;
  remove-All = λ P m k. erase-All P k m.0;
  entries-clear = λ m. refl;
  collect-All = gather-All;
  entries-collect = gather-eq;
}

abbrev pub sample_numbers : Numbers
sample_numbers = record {
  Number = ℤ;
  Float = ℤ;
  float_zero = pos 0;
  as_i64 = some;
  as_f64 = some;
  is_minus_one = λ z. int_eq z (negsuc 0);
  is_nonnegative = λ z. elim z [ pos _ ↦ true | negsuc _ ↦ false ];
  to_millis = λ z. elim z [ pos n ↦ n * 1000 | negsuc _ ↦ 0 ];
  to_f32 = λ z. z;
  of_cell = λ z. z;
  of_float = some;
  as_i64-of_cell = λ z h. refl;
}

abbrev pub sample : Deps
sample = record { indexmap = sample_map; numbers = sample_numbers; isize_max = 0x7fff_ffff }
