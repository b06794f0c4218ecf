-- ===== src/Ffi/Index.antt =====
-- rust/src/ffi/ext.rs: `ValueExt`, the lookup of a member by its name or by a dotted path. The
-- outer `none` is a read of a cell that was never made.
pub mod Paths
pub mod Inserts
pub mod Walks
use grip.Common.{
  ℕ, zero, suc, ◌+◌, ◌*◌, ◌/◌, ◌-◌, ◌%◌, min, ◌≡◌, refl, Bool, true, false, ◌&&◌, ◌||◌, Option,
  none, some, List, [], ◌∷◌, ◌++◌, map, if◌then◌else◌, ◌==◌, ltb, leb, is_some, get_elem?, set,
  length, vec_remove,
}
use grip.Common.Int.{ℤ, pos, negsuc, int_eq, as_isize, wrap_isize}
use grip.Common.Bytes.{Bytes, bytes_eq, split}
use grip.Common.Opt
use grip.Errors
use grip.Errors.{Result, ok, err, Message, Error, ffi}
use grip.Env.{Env}
use grip.Deps.{Deps, Entries}
use grip.CellMap
use grip.CellMap.{CellMap}
use grip.Gc.Heap.{InnerValue, Heap, update, write, alloc, alloc_slot, write_slot}
use grip.Gc.Value.{Value, nil, end}
use grip.Gc.Convert.{into_with_recursion_limit, deep_clone_with_recursion_limit}
use grip.Ffi.World.{
  World, ModuleStorage, Failure, Outcome, done, leave, panic, fault, M, pure, ◌>>=◌, ◌>>◌, gets,
  panics, faults, unwrap, assume, exported,
}
use grip.Ffi.Ext.{
  get_module, put_module, log_error, try_and_log_ffi, chain_err, to_str, try_option,
  unconditionally_log_error, ptr_to_option, c_str, try_str_from_ptr, try_as_usize,
  copy_unsafe_string, try_to_get_json_value_gc, borrow_inner, borrow_slot, try_to_get_json_value,
  as_array, try_to_get_json_array, try_to_get_json_array_mut, try_to_get_json_array_value,
  try_to_get_json_array_value_mut, write_inner, gc_json, insert_json,
}

-- The result of a lookup: the address of a slot.
abbrev pub Found : Type 0
Found = Result ℕ Message

module _ {d : Deps} where
  unfoldable pub member_of : Bytes → InnerValue d → Found
  member_of name (InnerValue.object m) = elim (d.get m name) [
    | some target ↦ ok target
    | none ↦ err (Message.missing_member name)
  ]
  member_of name InnerValue.null = err (Message.member_of_non_object name)
  member_of name (InnerValue.bool b) = err (Message.member_of_non_object name)
  member_of name (InnerValue.number n) = err (Message.member_of_non_object name)
  member_of name (InnerValue.string s) = err (Message.member_of_non_object name)
  member_of name (InnerValue.array cells) = err (Message.member_of_non_object name)

  -- `index_selective_safe_rc_gc` with `dot_notation` off.
  unfoldable pub index_plain : Heap d → ℕ → Bytes → Option Found
  unfolding member_of
  index_plain h a name = Opt.map (member_of name) (h.value a)

  -- Where the loop goes on from: `self` at first, then the slot found last.
  unfoldable pub current : Heap d → ℕ → Option ℕ → Option ℕ
  current h self none = some self
  current h self (some s) = h.slot s

  -- The loop of `dot_index_safe_rc_gc` over the pieces of `name`; the last argument is `it`.
  unfoldable pub dot_loop : Heap d → Bytes → ℕ → List Bytes → Option ℕ → Option Found
  unfolding index_plain current
  dot_loop h name self [] none = some (err Message.name_invalid)
  dot_loop h name self [] (some s) = some (ok s)
  dot_loop h name self ([] ∷ rest) it = some (err (Message.double_separator name))
  dot_loop h name self ((c ∷ element) ∷ rest) it = elim (current h self it) [
    | none ↦ none
    | some a ↦ elim (index_plain h a (c ∷ element)) [
      | none ↦ none
      | some (err m) ↦ some (err m)
      | some (ok s) ↦ dot_loop h name self rest (some s)
    ]
  ]

  unfoldable pub dot_index_safe_rc_gc : Heap d → ℕ → Bytes → Option Found
  unfolding dot_loop
  dot_index_safe_rc_gc h self name = dot_loop h name self (split b'.' name) none

  unfoldable pub index_selective_safe_rc_gc : Heap d → ℕ → Bytes → Bool → Option Found
  unfolding dot_index_safe_rc_gc index_plain
  index_selective_safe_rc_gc h self name true = dot_index_safe_rc_gc h self name
  index_selective_safe_rc_gc h self name false = index_plain h self name

  -- A new member in the object `m` at address `a`: its value, its slot, the insertion, and the
  -- lookup that follows.
  unfoldable pub insert_member : Heap d → ℕ → d.Map → Bytes → InnerValue d → Found × Heap d
  insert_member h a m name v =
      let (b, h₁) = alloc v h in
      let (s, h₂) = alloc_slot b h₁ in
      let m' = d.insert m name s in
      (member_of name (InnerValue.object m'), write a (InnerValue.object m') h₂)

  unfoldable pub insert_in :
      Heap d → ℕ → Bytes → Option (InnerValue d) → InnerValue d → Found × Heap d
  unfolding insert_member member_of
  insert_in h a name default (InnerValue.object m) = elim (d.get m name) [
    | some target ↦ (ok target, h)
    | none ↦ elim default [
      | none ↦ (err (Message.missing_member name), h)
      | some v ↦ insert_member h a m name v
    ]
  ]
  insert_in h a name default InnerValue.null = (err (Message.member_of_non_object name), h)
  insert_in h a name default (InnerValue.bool b) = (err (Message.member_of_non_object name), h)
  insert_in h a name default (InnerValue.number n) = (err (Message.member_of_non_object name), h)
  insert_in h a name default (InnerValue.string s) = (err (Message.member_of_non_object name), h)
  insert_in h a name default (InnerValue.array cells) = (err (Message.member_of_non_object name), h)

  -- `index_selective_safe_or_insert_rc_gc` with `dot_notation` off.
  unfoldable pub index_or_insert :
      Heap d → ℕ → Bytes → Option (InnerValue d) → Option (Found × Heap d)
  unfolding insert_in
  index_or_insert h a name default = Opt.map (insert_in h a name default) (h.value a)

  -- The default goes to the last piece of the name only.
  abbrev pub default_at : List Bytes → Option (InnerValue d) → Option (InnerValue d)
  default_at [] default = default
  default_at (_ ∷ _) default = none

  unfoldable pub dot_insert_loop :
      Heap d → Bytes → ℕ → Option (InnerValue d) → List Bytes → Option ℕ → Option (Found × Heap d)
  unfolding index_or_insert current
  dot_insert_loop h name self default [] none = some (err Message.name_invalid, h)
  dot_insert_loop h name self default [] (some s) = some (ok s, h)
  dot_insert_loop h name self default ([] ∷ rest) it = some (err (Message.double_separator name), h)
  dot_insert_loop h name self default ((c ∷ element) ∷ rest) it = elim (current h self it) [
    | none ↦ none
    | some a ↦ elim (index_or_insert h a (c ∷ element) (default_at rest default)) [
      | none ↦ none
      | some (err m, h') ↦ some (err m, h')
      | some (ok s, h') ↦ dot_insert_loop h' name self default rest (some s)
    ]
  ]

  unfoldable pub dot_index_safe_or_insert_rc_gc :
      Heap d → ℕ → Bytes → Option (InnerValue d) → Option (Found × Heap d)
  unfolding dot_insert_loop
  dot_index_safe_or_insert_rc_gc h self name default =
      dot_insert_loop h name self default (split b'.' name) none

  unfoldable pub index_selective_safe_or_insert_rc_gc :
      Heap d → ℕ → Bytes → Bool → Option (InnerValue d) → Option (Found × Heap d)
  unfolding dot_index_safe_or_insert_rc_gc index_or_insert
  index_selective_safe_or_insert_rc_gc h self name true default =
      dot_index_safe_or_insert_rc_gc h self name default
  index_selective_safe_or_insert_rc_gc h self name false default =
      index_or_insert h self name default
