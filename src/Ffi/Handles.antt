-- ===== src/Ffi/Handles.antt =====
-- JSON values behind their handles: made, read and destroyed; and the arrays among them.
use grip.Common.{
  ℕ, ◌+◌, ◌*◌, ◌≤◌, ◌<◌, ◌≡◌, refl, ◌∙◌, none, some, [], ◌∷◌, ◌++◌, arith, ap, if◌then◌else◌,
}
use native.Mathlib.Nat.{mod-eq_of_lt}
use grip.Common.Int.{ℤ, pos, negsuc, int_eq, int_eq_refl, wrap_isize}
use grip.Errors.{Message, ffi}
use grip.Env.{Env}
use grip.Deps.{IsI64}
use grip.CellMap.{CellMap, get_with_id, remove_with_id}
use grip.CellMap.Laws.{IsValid, inserted, insert-eq, get-inserted, get-remove, erase-none}
use grip.Gc.Value.{Value}
use grip.Gc.Heap.{InnerValue, alloc}
use grip.Gc.Convert.{from_value}
use grip.Ffi.World.{World, ModuleStorage, done, leave, returned}
use grip.Ffi.Ext.{
  get_module, put_module, log_error, try_and_log_ffi, try_to_get_json_value_gc, borrow_inner,
  try_to_get_json_value, gc_json, insert_json,
}
use grip.Ffi.Reads.{as_number, read_number, json_cell}
use grip.Ffi.Values.{
  init_json, grip_json_init_number, grip_json_get_number, grip_destroy_json_value,
  grip_json_get_type,
}

-- A cell, by its value: -max - 1 … max.
abbrev pub IsCell : ℕ → ℤ → Type 0
IsCell max (pos n) = n ≤ max
IsCell max (negsuc n) = n ≤ max

cell_in_range : (max n : ℕ) → n ≤ max → n < 2 * max + 2
cell_in_range max n h = omega arith

wrap_isize-IsCell : (max : ℕ) (z : ℤ) → IsCell max z → wrap_isize max z ≡ z
wrap_isize-IsCell max (pos n) h = ground (arith, mod-eq_of_lt (cell_in_range max n h))
wrap_isize-IsCell max (negsuc n) h = ground (arith, mod-eq_of_lt (cell_in_range max n h))

module _ {e : Env} where
  abbrev pub logging : World e → Message → World e
  logging w x = record w { logged = w.logged ++ ffi x ∷ [] }

  -- The module's handles, with a new list of the values' handles.
  abbrev pub with_handles : World e → ModuleStorage e → CellMap ℕ → World e
  with_handles w m handles = record w { storage = some (record m { json_handles = handles }) }

  pub get_handle :
      (w : World e) (m : ModuleStorage e) (value : ℤ) (a : ℕ)
      → w.storage ≡ some m
      → get_with_id m.json_handles value ≡ some a
      → try_to_get_json_value_gc value w ≡ done a w
  unfolding try_to_get_json_value_gc get_module try_and_log_ffi
  get_handle w m value a s g = rw (try_to_get_json_value_gc, s) (rw g refl)

  pub no_handle :
      (w : World e) (m : ModuleStorage e) (value : ℤ)
      → w.storage ≡ some m
      → get_with_id m.json_handles value ≡ none
      → try_to_get_json_value_gc value w ≡ leave (pos 0) (logging w (Message.invalid_json value))
  unfolding try_to_get_json_value_gc get_module try_and_log_ffi log_error
  no_handle w m value s g = rw (try_to_get_json_value_gc, s) (rw g refl)

  pub put_handle :
      (w : World e) (m : ModuleStorage e) (n a : ℕ)
      → w.storage ≡ some m
      → IsValid n m.json_handles
      → n ≤ e.isize_max
      → insert_json a w ≡ done (pos n) (with_handles w m (inserted e.isize_max m.json_handles a))
  unfolding insert_json get_module put_module
  put_handle w m n a s v h =
      rw (insert_json, s) (rw (insert-eq e.isize_max n m.json_handles a v h) refl)

  pub stored :
      (w : World e) (m : ModuleStorage e) → w.storage ≡ some m → w ≡ record w { storage = some m }
  stored w m s = ap (λ z. record w { storage = z }) s

  pub borrow_hit :
      (w : World e) (a : ℕ) (v : InnerValue e.deps)
      → w.heap.value a ≡ some v
      → borrow_inner a w ≡ done v w
  unfolding borrow_inner
  borrow_hit w a v h = rw h refl

  read_number-of_cell :
      (w : World e) (z : ℤ)
      → IsCell e.isize_max z
      → IsI64 z
      → read_number (InnerValue.number (e.of_cell z)) w ≡ done z w
  unfolding read_number as_number try_and_log_ffi
  read_number-of_cell w z cell wide =
      rw (e.as_i64-of_cell z wide) (ap (λ y. done y w) (wrap_isize-IsCell e.isize_max z cell))

-- A cell that fits an `i64` and that `grip_json_init_number` turns into a JSON value comes back from
-- `grip_json_get_number`, through a handle that was not in use, while handles are left.
pub init_number-get_number :
    {e : Env} (w : World e) (m : ModuleStorage e) (n : ℕ) (z : ℤ)
    → w.storage ≡ some m
    → IsValid n m.json_handles
    → n ≤ e.isize_max
    → IsCell e.isize_max z
    → IsI64 z
    → (w' : World e) × (grip_json_init_number z w ≡ done (pos n) w')
      × (grip_json_get_number (pos n) w' ≡ done z w')
      × (get_with_id m.json_handles (pos n) ≡ none)
unfolding grip_json_init_number init_json get_module gc_json grip_json_get_number
    try_to_get_json_value borrow_inner read_number as_number try_and_log_ffi alloc from_value
init_number-get_number {e} w m n z s v small cell wide =
    let v₀ : Value e.deps = json_cell z in
    let w₁ = record w { heap = (from_value v₀ w.heap).1 } in
    let handles = inserted e.isize_max m.json_handles (from_value v₀ w.heap).0 in
    let w' = with_handles w₁ m handles in
    let reached =
      get_handle w' (record m { json_handles = handles }) (pos n) w.heap.next_value refl
        (get-inserted e.isize_max n m.json_handles w.heap.next_value (pos n) v
          ∙ rw (int_eq_refl (pos n)) refl) in
    let w₀ = record w { storage = some m; heap = (from_value v₀ w.heap).1 } in
    (
      w',
      ap (grip_json_init_number z) (stored w m s)
          ∙ ap returned (put_handle w₀ m n w.heap.next_value refl v small),
      rw (grip_json_get_number, reached)
          (rw
            (
              grip_json_get_number,
              borrow_hit w' w.heap.next_value (InnerValue.number (e.of_cell z)) (ground arith),
            )
            (ap returned (read_number-of_cell w' z cell wide))),
      v.fresh n (omega arith),
    )

-- Destroying a value's handle that is in use returns 1. From then on the handle is invalid:
-- `grip_json_get_type` and a second destruction return 0, and each logs its own text about the
-- handle. Every other handle leads to what it led to.
pub destroy_json_value-invalid :
    {e : Env} (w : World e) (m : ModuleStorage e) (h : ℤ) (a : ℕ)
    → w.storage ≡ some m
    → get_with_id m.json_handles h ≡ some a
    → (handles : CellMap ℕ) × (grip_destroy_json_value h w
        ≡ done (pos 1) (with_handles w m handles))
      × (grip_json_get_type h (with_handles w m handles)
          ≡ done (pos 0) (logging (with_handles w m handles) (Message.invalid_json h)))
      × (grip_destroy_json_value h (with_handles w m handles)
          ≡ done (pos 0) (logging (with_handles w m handles) (Message.invalid_json_value h)))
      × ((j : ℤ)
          → get_with_id handles j ≡ (if int_eq h j then none else get_with_id m.json_handles j))
unfolding grip_destroy_json_value get_module put_module try_and_log_ffi log_error grip_json_get_type
    try_to_get_json_value remove_with_id get_with_id
destroy_json_value-invalid {e} w m h a s g =
    let handles = (remove_with_id m.json_handles h).1 in
    let w' = with_handles w m handles in
    let gone : get_with_id handles h ≡ none =
      get-remove m.json_handles h h ∙ rw (int_eq_refl h) refl in
    (
      handles,
      ap (grip_destroy_json_value h) (stored w m s) ∙ rw (grip_destroy_json_value, g) refl,
      rw (grip_json_get_type, no_handle w' (record m { json_handles = handles }) h refl gone) refl,
      rw (grip_destroy_json_value, gone) (rw (erase-none h handles.inner gone) refl),
      λ j. get-remove m.json_handles h j,
    )
