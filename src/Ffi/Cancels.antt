-- ===== src/Ffi/Cancels.antt =====
-- Cancelled requests, and the response functions outside a callback.
use grip.Common.{ℕ, ◌≡◌, refl, ◌∙◌, none, some, ◌∷◌, ap, if◌then◌else◌}
use grip.Common.Int.{ℤ, pos, int_eq, int_eq_refl}
use grip.Errors.{Message}
use grip.Env.{Env}
use grip.CellMap.{get_with_id, remove_with_id}
use grip.CellMap.Laws.{get-remove, erase-none}
use grip.Ffi.World.{World, ModuleStorage, done}
use grip.Ffi.Ext.{get_module, put_module, try_and_log_ffi, log_error}
use grip.Ffi.Handles.{logging, stored}
use grip.Ffi.Responses.{drop_sender, grip_cancel_request, grip_is_request_active}

-- Cancelling an active request returns 1 and drops the sender of its channel, which is what the
-- request's task waits for. From then on the request is not active, and cancelling it again returns
-- 0, logs that there is no such cancellation, and drops nothing. Every other request is as active as
-- it was.
pub cancel_request-inactive :
    {e : Env} (w : World e) (m : ModuleStorage e) (id : ℤ) (channel : ℕ)
    → w.storage ≡ some m
    → get_with_id m.cancellations_handles id ≡ some channel
    → (m' : ModuleStorage e) × (grip_cancel_request id w
        ≡ done (pos 1) (record w { storage = some m' }))
      × (m'.global_queue.dropped ≡ channel ∷ m.global_queue.dropped)
      × (grip_is_request_active id (record w { storage = some m' })
          ≡ done (pos 0) (record w { storage = some m' }))
      × (grip_cancel_request id (record w { storage = some m' })
          ≡ done (pos 0) (logging (record w { storage = some m' }) (Message.no_cancellation id)))
      × ((j : ℤ)
          → get_with_id m'.cancellations_handles j
            ≡ (if int_eq id j then none else get_with_id m.cancellations_handles j))
unfolding grip_cancel_request get_module put_module try_and_log_ffi log_error drop_sender
    grip_is_request_active remove_with_id get_with_id
cancel_request-inactive {e} w m id channel s g =
    let handles = (remove_with_id m.cancellations_handles id).1 in
    let m' = drop_sender (some channel) (record m { cancellations_handles = handles }) in
    let gone : get_with_id handles id ≡ none =
      get-remove m.cancellations_handles id id ∙ rw (int_eq_refl id) refl in
    (
      m',
      ap (grip_cancel_request id) (stored w m s) ∙ rw (grip_cancel_request, g) refl,
      refl,
      rw (grip_is_request_active, gone) refl,
      rw (grip_cancel_request, gone) (rw (erase-none id handles.inner gone) refl),
      λ j. get-remove m.cancellations_handles id j,
    )
