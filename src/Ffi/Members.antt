-- ===== src/Ffi/Members.antt =====
-- A member of a JSON object that is set and then read, by its plain name.
use grip.Common.{ℕ, ◌≡◌, ◌≤◌, refl, true, false, some, arith, ap, ◌==◌}
use grip.Common.Int.{ℤ, pos}
use grip.Common.Bytes.{Bytes, c_string}
use grip.Utf8.{is_utf8}
use grip.Errors.{ok, Message}
use grip.Env.{Env}
use grip.CellMap.{get_with_id}
use grip.CellMap.Laws.{IsValid, inserted}
use grip.Gc.Heap.{InnerValue, Heap, IsHeap, write_slot}
use grip.Ffi.World.{World, ModuleStorage, done, returned}
use grip.Ffi.Ext.{try_and_log_ffi, try_str_from_ptr, try_to_get_json_value_gc, borrow_slot}
use grip.Ffi.Index.{
  index_selective_safe_rc_gc, index_selective_safe_or_insert_rc_gc, index_or_insert,
}
use grip.Ffi.Index.Paths.{Member, Member-index_plain}
use grip.Ffi.Index.Inserts.{or_insert-ok, or_insert-Walked}
use grip.Ffi.Objects.{
  try_found, try_to_get_json_object_value_rc_gc, try_to_get_json_object_value_or_insert_rc_gc,
  try_to_get_json_object_value_gc, set_member, grip_json_object_set_value,
  grip_json_object_get_value,
}
use grip.Ffi.Handles.{with_handles, get_handle, put_handle}
use grip.Ffi.Issues.{c_str-read}
use grip.Ffi.Sharing.{catch_done}

-- A pointer to a C string of UTF-8 text.
pub record IsText {e : Env} (w : World e) (p : ℕ) (text : Bytes) : Type 0 where
  pub memory : Bytes
  pub pointer : (p == 0) ≡ false
  pub pointed : w.memory p ≡ some memory
  pub ended : c_string memory ≡ some text
  pub utf8 : is_utf8 text ≡ true

-- A handle that leads to an object.
pub record IsObject {e : Env} (w : World e) (m : ModuleStorage e) (object : ℤ) (a : ℕ)
    : Type 0 where
  pub storage : w.storage ≡ some m
  pub handle : get_with_id m.json_handles object ≡ some a
  pub map : e.Map
  pub value : w.heap.value a ≡ some (InnerValue.object map)

module _ {e : Env} where
  abbrev pub with_heap : World e → Heap e.deps → World e
  with_heap w h = record w { heap = h }

  pub text_read :
      (w : World e) (p : ℕ) (text : Bytes) (message : Message)
      → IsText w p text
      → try_str_from_ptr p message w ≡ done text w
  unfolding try_str_from_ptr try_and_log_ffi
  text_read w p text message t =
      rw (try_str_from_ptr, c_str-read w p t.memory text t.pointer t.pointed t.ended)
        (rw t.utf8 refl)

  slot_of_name :
      (w : World e) (m : ModuleStorage e) (object : ℤ) (name a : ℕ) (k : Bytes) (s : ℕ)
      (h' : Heap e.deps)
      → IsObject w m object a
      → IsText w name k
      → index_or_insert w.heap a k (some InnerValue.null) ≡ some (ok s, h')
      → try_to_get_json_object_value_or_insert_rc_gc object name false w ≡ done s (with_heap w h')
  unfolding try_to_get_json_object_value_or_insert_rc_gc index_selective_safe_or_insert_rc_gc
      try_found
  slot_of_name w m object name a k s h' o t i =
      rw (try_to_get_json_object_value_or_insert_rc_gc, get_handle w m object a o.storage o.handle)
        (rw (try_to_get_json_object_value_or_insert_rc_gc, text_read w name k Message.bad_pointer t)
          (rw (try_to_get_json_object_value_or_insert_rc_gc, i) refl))

  value_of_name :
      (w : World e) (m : ModuleStorage e) (object : ℤ) (name a : ℕ) (k : Bytes) (s b : ℕ)
      → w.storage ≡ some m
      → get_with_id m.json_handles object ≡ some a
      → IsText w name k
      → Member w.heap a k s
      → w.heap.slot s ≡ some b
      → try_to_get_json_object_value_gc object name false w ≡ done b w
  unfolding try_to_get_json_object_value_gc try_to_get_json_object_value_rc_gc
      index_selective_safe_rc_gc try_found borrow_slot
  value_of_name w m object name a k s b st g t member slot =
      rw (try_to_get_json_object_value_gc, get_handle w m object a st g)
        (rw (try_to_get_json_object_value_gc, text_read w name k Message.bad_pointer t)
          (rw (try_to_get_json_object_value_gc, Member-index_plain w.heap a k s member)
            (rw (try_to_get_json_object_value_gc, slot) refl)))

-- Setting a member of an object, by its plain name, to the value behind a handle returns 1, whether
-- or not the member was there. Reading the member then gives a handle to that same cell, not to a
-- copy of it. Every member of every object is still there, in the slot it had.
pub set_value-get_value :
    {e : Env} (w : World e) (m : ModuleStorage e) (object : ℤ) (name : ℕ) (value : ℤ) (a b n : ℕ)
    (k : Bytes)
    → IsObject w m object a
    → IsText w name k
    → get_with_id m.json_handles value ≡ some b
    → IsHeap w.heap
    → IsValid n m.json_handles
    → n ≤ e.isize_max
    → (h : Heap e.deps) × (grip_json_object_set_value object name value false w
        ≡ done (pos 1) (with_heap w h))
      × (grip_json_object_get_value object name false (with_heap w h)
          ≡ done (pos n) (with_handles (with_heap w h) m (inserted e.isize_max m.json_handles b)))
      × ((c : ℕ) (j : Bytes) (s : ℕ) → Member w.heap c j s → Member h c j s)
unfolding grip_json_object_set_value set_member grip_json_object_get_value write_slot
set_value-get_value {e} w m object name value a b n k o t g ordered v small =
    let (s, h', i) = or_insert-ok w.heap a k o.map InnerValue.null o.value in
    let walked = or_insert-Walked w.heap a k (some InnerValue.null) s h' ordered i in
    let h = write_slot s b h' in
    let w' = with_heap w h in
    let there : Member h a k s = record {
      map = walked.member.map;
      value = walked.member.value;
      get = walked.member.get;
    } in
    let text : IsText w' name k = record {
      memory = t.memory;
      pointer = t.pointer;
      pointed = t.pointed;
      ended = t.ended;
      utf8 = t.utf8;
    } in
    (
      h,
      ap returned (
          catch_done (set_member object name false (try_to_get_json_value_gc value)) w w' (pos 1) (
            rw (set_member, get_handle w m value b o.storage g)
              (rw (set_member, slot_of_name w m object name a k s h' o t i) refl))),
      rw
          (
            grip_json_object_get_value,
            value_of_name w' m object name a k s b o.storage o.handle text there (ground arith),
          )
          (ap returned (put_handle w' m n b o.storage v small)),
      λ c j r q. record {
        map = (walked.grows.member c j r q).map;
        value = (walked.grows.member c j r q).value;
        get = (walked.grows.member c j r q).get;
      },
    )
