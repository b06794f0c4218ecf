-- ===== src/Ffi/Sharing.antt =====
-- JSON arrays behind their handles: an appended value is shared, a removal may panic.
use grip.Common.{
  ℕ, zero, suc, ◌+◌, ◌≤◌, ◌<◌, ◌≡◌, refl, none, some, List, [], ◌∷◌, ◌++◌, arith, ap, if◌then◌else◌,
  ltb, length, get_elem?, vec_remove, length-append,
}
use grip.Common.Int.{ℤ, pos, negsuc, as_isize}
use grip.Errors.{Message}
use grip.Env.{Env}
use grip.CellMap.{get_with_id}
use grip.CellMap.Laws.{IsValid, inserted}
use grip.Gc.Heap.{InnerValue, write, update}
use grip.Ffi.World.{World, ModuleStorage, done, panic, M, returned}
use grip.Ffi.Ext.{
  get_module, log_error, unconditionally_log_error, try_and_log_ffi, try_as_usize, try_option,
  try_to_get_json_value_gc, try_to_get_json_value, as_array, try_to_get_json_array,
  try_to_get_json_array_mut, try_to_get_json_array_value, write_inner,
}
use grip.Ffi.Arrays.{
  push_onto, catch_unwind, grip_json_array_append_value, grip_json_array_get_count,
  grip_json_array_get_value, grip_json_array_remove,
}
use grip.Ffi.Handles.{with_handles, logging, get_handle, put_handle, borrow_hit}

get_elem?-last : {A : Type 0} (xs : List A) (y : A) → get_elem? (xs ++ y ∷ []) (length xs) ≡ some y
get_elem?-last [] y = refl
get_elem?-last (x ∷ xs) y = get_elem?-last xs y

-- A handle that leads to an array.
pub record IsArray {e : Env} (w : World e) (m : ModuleStorage e) (array : ℤ) (a : ℕ)
    (cells : List ℕ) : Type 0 where
  pub storage : w.storage ≡ some m
  pub handle : get_with_id m.json_handles array ≡ some a
  pub value : w.heap.value a ≡ some (InnerValue.array cells)

module _ {e : Env} where
  -- The world with the array at `a` holding `cells`.
  abbrev pub rewritten : World e → ℕ → List ℕ → World e
  rewritten w a cells = record w {
    heap = record w.heap { value = update w.heap.value a (InnerValue.array cells) };
  }

  array_mut :
      (w : World e) (m : ModuleStorage e) (array : ℤ) (a : ℕ) (cells : List ℕ)
      → IsArray w m array a cells
      → try_to_get_json_array_mut array w ≡ done (a, cells) w
  unfolding try_to_get_json_array_mut as_array
  array_mut w m array a cells h =
      rw (try_to_get_json_array_mut, get_handle w m array a h.storage h.handle)
        (rw (try_to_get_json_array_mut, borrow_hit w a (InnerValue.array cells) h.value) refl)

  array_cells :
      (w : World e) (m : ModuleStorage e) (array : ℤ) (a : ℕ) (cells : List ℕ)
      → IsArray w m array a cells
      → try_to_get_json_array array w ≡ done cells w
  unfolding try_to_get_json_array try_to_get_json_value as_array
  array_cells w m array a cells h =
      rw (try_to_get_json_array, get_handle w m array a h.storage h.handle)
        (rw (try_to_get_json_array, borrow_hit w a (InnerValue.array cells) h.value) refl)

  pub catch_done :
      (f : M e ℤ) (w w' : World e) (c : ℤ) → f w ≡ done c w' → catch_unwind f w ≡ done c w'
  unfolding catch_unwind
  catch_done f w w' c p = rw (catch_unwind, p) refl

  pushed :
      (w : World e) (m : ModuleStorage e) (array value : ℤ) (a b : ℕ) (cells : List ℕ)
      → IsArray w m array a cells
      → get_with_id m.json_handles value ≡ some b
      → push_onto array (try_to_get_json_value_gc value) w
        ≡ done (pos 1) (rewritten w a (cells ++ b ∷ []))
  unfolding push_onto write_inner write
  pushed w m array value a b cells h g =
      rw (push_onto, array_mut w m array a cells h)
        (rw (push_onto, get_handle w m value b h.storage g) refl)

  rewritten-IsArray :
      (w : World e) (m : ModuleStorage e) (array : ℤ) (a : ℕ) (cells cells' : List ℕ)
      → IsArray w m array a cells
      → IsArray (rewritten w a cells') m array a cells'
  rewritten-IsArray w m array a cells cells' h = record {
    storage = h.storage;
    handle = h.handle;
    value = ground arith;
  }

-- Appending the value behind one handle to the array behind another returns 1 and puts the same
-- cell, not a copy, at the end of the array: the count grows by one, and a handle taken of the last
-- element leads to that cell. Nothing else of the state changes.
pub append_value-get_value :
    {e : Env} (w : World e) (m : ModuleStorage e) (array value : ℤ) (a b n : ℕ) (cells : List ℕ)
    → IsArray w m array a cells
    → get_with_id m.json_handles value ≡ some b
    → IsValid n m.json_handles
    → n ≤ e.isize_max
    → let w' = rewritten w a (cells ++ b ∷ []) in
      (grip_json_array_append_value array value w ≡ done (pos 1) w')
      × (grip_json_array_get_count array w' ≡ done (as_isize e.isize_max (length cells + 1)) w')
      × (grip_json_array_get_value array (pos (length cells)) w'
          ≡ done (pos n) (with_handles w' m (inserted e.isize_max m.json_handles b)))
unfolding grip_json_array_append_value push_onto catch_unwind write_inner write
    grip_json_array_get_count grip_json_array_get_value try_to_get_json_array_value try_as_usize
    try_option try_and_log_ffi
append_value-get_value {e} w m array value a b n cells h g v small =
    let w' = rewritten w a (cells ++ b ∷ []) in
    let h' = rewritten-IsArray w m array a cells (cells ++ b ∷ []) h in
    (
      ap returned (
          catch_done (push_onto array (try_to_get_json_value_gc value)) w w' (pos 1)
            (pushed w m array value a b cells h g)),
      rw (grip_json_array_get_count, array_cells w' m array a (cells ++ b ∷ []) h')
          (ap (λ k. done (as_isize e.isize_max k) w') (length-append cells (b ∷ []))),
      rw (grip_json_array_get_value, array_cells w' m array a (cells ++ b ∷ []) h')
          (rw (get_elem?-last cells b) (ap returned (put_handle w' m n b h'.storage v small))),
    )

removed_tail :
    {A : Type 0} (x : A) (xs ys : List A) (i : ℕ)
    → ((j : ℕ) → get_elem? ys j ≡ get_elem? xs (if ltb j i then j else j + 1))
    → (j : ℕ) → get_elem? (x ∷ ys) j ≡ get_elem? (x ∷ xs) (if ltb j (suc i) then j else j + 1)
removed_tail x xs ys i q zero = ground arith
removed_tail x xs ys i q (suc j) = ground (arith, q j)

vec_remove-in_range :
    {A : Type 0} (i : ℕ) (xs : List A)
    → i < length xs
    → (ys : List A) × (vec_remove i xs ≡ some ys)
      × (length ys + 1 ≡ length xs)
      × ((j : ℕ) → get_elem? ys j ≡ get_elem? xs (if ltb j i then j else j + 1))
vec_remove-in_range i [] h = absurd (omega arith)
vec_remove-in_range zero (x ∷ xs) h = (xs, refl, omega arith, λ j. ground arith)
vec_remove-in_range (suc i) (x ∷ xs) h =
    let (ys, p, l, q) = vec_remove-in_range i xs (omega arith) in
    (x ∷ ys, rw p refl, omega (arith, l), removed_tail x xs ys i q)

vec_remove-out_of_range :
    {A : Type 0} (i : ℕ) (xs : List A) → length xs ≤ i → vec_remove i xs ≡ none
vec_remove-out_of_range i [] h = refl
vec_remove-out_of_range zero (x ∷ xs) h = absurd (omega arith)
vec_remove-out_of_range (suc i) (x ∷ xs) h = rw (vec_remove-out_of_range i xs (omega arith)) refl

-- `grip_json_array_remove` at an index that is in range returns 1, and the array has one cell less:
-- those before the index stay and those behind it move down by one. At an index past the end it
-- panics, with the state as it was. At a negative index it logs an error, returns 0 and changes
-- nothing else.
pub array_remove_lem :
    {e : Env} (w : World e) (m : ModuleStorage e) (array : ℤ) (a i : ℕ) (cells : List ℕ)
    → IsArray w m array a cells
    → (i < length cells
        → (rest : List ℕ) × (grip_json_array_remove array (pos i) w
            ≡ done (pos 1) (rewritten w a rest))
          × (length rest + 1 ≡ length cells)
          × ((j : ℕ) → get_elem? rest j ≡ get_elem? cells (if ltb j i then j else j + 1)))
      × (length cells ≤ i → grip_json_array_remove array (pos i) w ≡ panic w)
      × ((k : ℕ)
          → grip_json_array_remove array (negsuc k) w
            ≡ done (pos 0) (logging w (Message.negative_size (negsuc k))))
unfolding grip_json_array_remove try_as_usize write_inner write unconditionally_log_error log_error
    get_module
array_remove_lem w m array a i cells h = (
  λ l.
      let (rest, p, len, q) = vec_remove-in_range i cells l in
      (rest, rw (grip_json_array_remove, array_mut w m array a cells h) (rw p refl), len, q),
  λ l.
      rw (grip_json_array_remove, array_mut w m array a cells h)
        (rw (vec_remove-out_of_range i cells l) refl),
  λ k. rw (grip_json_array_remove, array_mut w m array a cells h) (rw h.storage refl),
)
