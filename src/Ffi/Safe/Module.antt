-- ===== src/Ffi/Safe/Module.antt =====
-- The functions of rust/src/ffi/mod.rs on requests, bodies, options and responses keep a sound world.
use grip.Common.{ℕ, ◌≡◌, subst, ◌⊎◌, inl, inr, true, Option, none, some, ◌==◌}
use mathlib.Core.Option.{some-injective}
use grip.Common.Int.{ℤ, pos}
use grip.Errors.{Result, ok, err, Message, Error, ffi}
use grip.Env.{Env}
use grip.CellMap.{get_with_id, set_with_id, remove_with_id, insert_with_unique_id}
use grip.Gc.Value.{Value}
use grip.Ffi.World.{World, ModuleStorage, Failure, pure, and_then}
use grip.Ffi.Ext.{try_and_log_ffi, chain_err, to_str, ptr_to_option, put_module}
use grip.Queue.{Response}
use grip.Ffi.Responses.{
  grip_destroy_body, grip_body_from_string, grip_destroy_options, grip_options_add_header,
  drop_sender, grip_cancel_request, grip_is_request_active, try_response, grip_get_response_state,
  succeeded, describe, grip_get_error_description, grip_get_response_body_string,
  grip_get_response_status_code, parsed, grip_json_parse_response_body, grip_json_parse_string,
}
use grip.Ffi.Requests.{timeout_of, grip_create_default_options}
use grip.Ffi.Safe.{
  Sound, Onward, Onward-trans, Fine, Any, Fine-pure, Fine-bind, Fine-map, Ends, Ends-bind,
  Ends-then, Fine-Ends, Ends-returned,
}
use grip.Ffi.Safe.Macros.{
  Readable, Readable-Onward, Owned, Owned-Onward, get_module-Fine, put_module-Fine,
  try_and_log_ffi-Fine, unconditionally-Fine, try_str_from_ptr-Fine, c_str-Fine, unwrap-Fine,
  gc_json-Fine, insert_json-Fine, chain_err-ok,
}
use grip.Ffi.Safe.Arrays.{exported-Ends}
use grip.Ffi.Safe.Values.{Writable, Writable-Onward, copy_unsafe_string-Ends, insert_body-Fine}

module _ {e : Env} where
  -- The end of the functions that report on what they removed.
  reported-Fine :
      {w : World e} {A : Type 0} (m : ModuleStorage e) (removed : Option A) (x : Message)
      → Sound w
      → Owned m w
      → Fine w Any (
          and_then
            (put_module m w)
            λ _ v. and_then (try_and_log_ffi (chain_err removed x) v) λ _. pure (pos 1))
  reported-Fine m removed x s h = Fine-bind {f = λ _. _} (put_module-Fine m s h) λ _ v sv g q.
      Fine-bind {f = λ _. pure (pos 1)} (try_and_log_ffi-Fine (chain_err removed x) sv)
        λ _ u su k z. Fine-pure su tt

  pub grip_destroy_body-Ends : (w : World e) (body : ℤ) → Sound w → Ends (grip_destroy_body body w)
  unfolding grip_destroy_body
  grip_destroy_body-Ends w body s = exported-Ends (
      Fine-bind (get_module-Fine s) λ m v sv g q.
        reported-Fine (record m { bodies_handles = (remove_with_id m.bodies_handles body).1 })
          (remove_with_id m.bodies_handles body).0 (Message.invalid_body body) sv (sv.handles m q))

  pub grip_destroy_options-Ends :
      (w : World e) (options : ℤ) → Sound w → Ends (grip_destroy_options options w)
  unfolding grip_destroy_options
  grip_destroy_options-Ends w options s = exported-Ends (
      Fine-bind (get_module-Fine s) λ m v sv g q.
        reported-Fine (record m { options_handles = (remove_with_id m.options_handles options).1 })
          (remove_with_id m.options_handles options).0 (Message.invalid_options options) sv
          (sv.handles m q))

  -- Dropping a sender touches the queue only.
  pub drop_sender-Owned :
      (w : World e) (removed : Option ℕ) (m : ModuleStorage e)
      → Owned m w
      → Owned (drop_sender removed m) w
  unfolding drop_sender
  drop_sender-Owned w none m h = h
  drop_sender-Owned w (some channel) m h = h

  pub grip_cancel_request-Ends :
      (w : World e) (cancellation : ℤ) → Sound w → Ends (grip_cancel_request cancellation w)
  unfolding grip_cancel_request
  grip_cancel_request-Ends w cancellation s = exported-Ends (
      Fine-bind (get_module-Fine s) λ m v sv g q.
        let removed = (remove_with_id m.cancellations_handles cancellation).0 in
        let m' = record m {
          cancellations_handles = (remove_with_id m.cancellations_handles cancellation).1;
        } in
        reported-Fine (drop_sender removed m') removed (Message.no_cancellation cancellation) sv
          (drop_sender-Owned v removed m' (sv.handles m q)))

  pub grip_is_request_active-Ends :
      (w : World e) (request : ℤ) → Sound w → Ends (grip_is_request_active request w)
  unfolding grip_is_request_active
  grip_is_request_active-Ends w request s =
      exported-Ends {Q = Any} (Fine-bind (get_module-Fine s) λ m v sv g q. Fine-pure sv tt)

  -- A pointer that the function checks: null, or a C string.
  abbrev pub Checked : ℕ → World e → Type 0
  Checked p w = ((p == 0) ≡ true) ⊎ Readable p w

  pub Checked-Onward : {w v : World e} {p : ℕ} → Onward w v → Checked p w → Checked p v
  Checked-Onward g (inl z) = inl z
  Checked-Onward g (inr r) = inr (Readable-Onward g r)

  -- What is left of the check is a C string.
  pub Checked-Fine :
      {w : World e} (p : ℕ) (x : Message)
      → Sound w
      → Checked p w
      → Fine w (λ q v. Readable q v) (try_and_log_ffi (chain_err (ptr_to_option p) x) w)
  unfolding ptr_to_option
  Checked-Fine p x s (inl z) =
      rw z (Fine-map (try_and_log_ffi-Fine {A = ℕ} (err (ffi x)) s) λ a v sv g q. absurd cc)
  Checked-Fine p x s (inr r) = rw r.nonzero (
      Fine-map (try_and_log_ffi-Fine {A = ℕ} (ok p) s) λ a v sv g q.
        subst (λ z. Readable z v) (some-injective _ _ (chain_err-ok (some p) x a q))
          (Readable-Onward g r))

  pub grip_body_from_string-Ends :
      (w : World e) (string : ℕ)
      → Sound w
      → Checked string w
      → Ends (grip_body_from_string string w)
  unfolding grip_body_from_string
  grip_body_from_string-Ends w string s r = exported-Ends {Q = Any} (
      Fine-bind (get_module-Fine s) λ m v sv g q.
        Fine-bind (Checked-Fine string Message.invalid_uri sv (Checked-Onward g r))
          λ p u su h k. Fine-bind (c_str-Fine su k) λ t x sx i z. insert_body-Fine t sx)

  pub grip_options_add_header-Ends :
      (w : World e) (options : ℤ) (name value : ℕ)
      → Sound w
      → Readable name w
      → Readable value w
      → Ends (grip_options_add_header options name value w)
  unfolding grip_options_add_header
  grip_options_add_header-Ends w options name value s rn rv = exported-Ends {Q = Any} (
      Fine-bind (get_module-Fine s) λ m v sv g q.
        Fine-bind
          (try_and_log_ffi-Fine
            (chain_err (get_with_id m.options_handles options) (Message.invalid_options options))
            sv)
          λ option v₁ s₁ g₁ q₁.
            Fine-bind
              (try_str_from_ptr-Fine Message.header_not_utf8 s₁
                (Readable-Onward (Onward-trans g g₁) rn))
              λ n v₂ s₂ g₂ q₂.
                let h₂ = Onward-trans g₁ g₂ in
                Fine-bind
                  (try_str_from_ptr-Fine Message.header_value_not_utf8 s₂
                    (Readable-Onward (Onward-trans g h₂) rv))
                  λ t v₃ s₃ g₃ q₃.
                    Fine-bind
                      (try_and_log_ffi-Fine (chain_err (e.header_value t) Message.bad_header_value)
                        s₃)
                      λ x v₄ s₄ g₄ q₄.
                        Fine-bind (unwrap-Fine (e.insert_header option.headers n x) s₄)
                          λ headers v₅ s₅ g₅ q₅.
                            let h₅ = Onward-trans h₂ (Onward-trans g₃ (Onward-trans g₄ g₅)) in
                            Fine-bind {f = λ _. pure (pos 1)}
                              (put_module-Fine
                                (record m {
                                  options_handles =
                                      set_with_id m.options_handles options
                                        (record option { headers = headers });
                                })
                                s₅ (Owned-Onward m h₅ (sv.handles m q)))
                              λ _ z sz k p. Fine-pure sz tt)

  pub grip_create_default_options-Ends :
      (w : World e) (timeout : e.Float) → Sound w → Ends (grip_create_default_options timeout w)
  unfolding grip_create_default_options
  grip_create_default_options-Ends w timeout s = exported-Ends {Q = Any} (
      Fine-bind (get_module-Fine s) λ m v sv g q.
        Fine-bind (try_and_log_ffi-Fine (timeout_of e timeout) sv) λ t u su h r.
          Fine-bind
            (unwrap-Fine
              (insert_with_unique_id e.isize_max m.options_handles
                (record { headers = e.no_headers; timeout = t }))
              su)
            λ p x sx k z.
              Fine-bind {f = λ _. pure p.0}
                (put_module-Fine (record m { options_handles = p.1 }) sx
                  (Owned-Onward m (Onward-trans h k) (sv.handles m q)))
                λ _ y sy l o. Fine-pure sy tt)

  response-Fine : {w : World e} (x : Message) → Sound w → Fine w Any (try_response x w)
  unfolding try_response
  response-Fine x s = Fine-bind (get_module-Fine s) λ m v sv g q.
      Fine-map (try_and_log_ffi-Fine (chain_err m.current_response x) sv) λ r u su h k. tt

  succeeded-Fine :
      {w : World e} (r : Result (Response e) (Failure e)) → Sound w → Fine w Any (succeeded r w)
  unfolding succeeded
  succeeded-Fine (ok r) s = Fine-pure s tt
  succeeded-Fine (err x) s = unconditionally-Fine _ s

  pub grip_get_response_state-Ends : (w : World e) → Sound w → Ends (grip_get_response_state w)
  unfolding grip_get_response_state
  grip_get_response_state-Ends w s =
      exported-Ends {Q = Any} (Fine-bind (response-Fine _ s) λ r v sv g q. Fine-pure sv tt)

  describe-Ends :
      {w : World e} {buffer : ℕ} {size : ℤ} (r : Result (Response e) (Failure e))
      → Sound w
      → Writable buffer size w
      → Ends (describe buffer size r w)
  unfolding describe
  describe-Ends (ok r) s b = Fine-Ends {Q = Any} (unconditionally-Fine _ s)
  describe-Ends (err Error.request_cancelled) s b =
      Fine-Ends (try_and_log_ffi-Fine {A = ℤ} (err Error.request_cancelled) s)
  describe-Ends (err Error.request_timeout) s b = copy_unsafe_string-Ends _ s b
  describe-Ends (err (ffi m)) s b = copy_unsafe_string-Ends _ s b
  describe-Ends (err (Error.http x)) s b = copy_unsafe_string-Ends _ s b
  describe-Ends (err (Error.json x)) s b = copy_unsafe_string-Ends _ s b

  pub grip_get_error_description-Ends :
      (w : World e) (buffer : ℕ) (size : ℤ)
      → Sound w
      → Writable buffer size w
      → Ends (grip_get_error_description buffer size w)
  unfolding grip_get_error_description
  grip_get_error_description-Ends w buffer size s b =
      Ends-returned
        (Ends-bind (response-Fine _ s) λ r v sv g q. describe-Ends r sv (Writable-Onward g b))

  pub grip_get_response_body_string-Ends :
      (w : World e) (buffer : ℕ) (size : ℤ)
      → Sound w
      → Writable buffer size w
      → Ends (grip_get_response_body_string buffer size w)
  unfolding grip_get_response_body_string
  grip_get_response_body_string-Ends w buffer size s b = Ends-returned (
      Ends-bind (response-Fine _ s) λ result v sv g q.
        Ends-bind (succeeded-Fine result sv) λ r u su h k.
          Ends-bind (try_and_log_ffi-Fine (to_str r.body Message.not_utf8) su) λ t x sx i z.
            copy_unsafe_string-Ends t sx (Writable-Onward (Onward-trans g (Onward-trans h i)) b))

  pub grip_get_response_status_code-Ends :
      (w : World e) → Sound w → Ends (grip_get_response_status_code w)
  unfolding grip_get_response_status_code
  grip_get_response_status_code-Ends w s = exported-Ends {Q = Any} (
      Fine-bind (response-Fine _ s)
        λ result v sv g q. Fine-bind (succeeded-Fine result sv) λ r u su h k. Fine-pure su tt)

  -- The parsers.
  pub parsed-Ends :
      {w : World e} {buffer : ℕ} {size : ℤ} (r : Result (Value e.deps) e.JsonError)
      → Sound w
      → Writable buffer size w
      → Ends (parsed buffer size r w)
  unfolding parsed
  parsed-Ends (ok x) s b =
      Fine-Ends (Fine-bind (gc_json-Fine x s) λ a v sv g l. insert_json-Fine a sv l)
  parsed-Ends (err x) s b =
      Ends-then {f = λ _. pure (pos 0)}
        (copy_unsafe_string-Ends (e.display_chain (Error.json x)) s b) λ _ v sv. Ends.goes sv

  pub grip_json_parse_response_body-Ends :
      (w : World e) (buffer : ℕ) (size : ℤ)
      → Sound w
      → Writable buffer size w
      → Ends (grip_json_parse_response_body buffer size w)
  unfolding grip_json_parse_response_body
  grip_json_parse_response_body-Ends w buffer size s b = Ends-returned (
      Ends-bind (response-Fine _ s) λ result v sv g q.
        Ends-bind (succeeded-Fine result sv)
          λ r u su h k. parsed-Ends (e.from_slice r.body) su (Writable-Onward (Onward-trans g h) b))

  pub grip_json_parse_string-Ends :
      (w : World e) (string buffer : ℕ) (size : ℤ)
      → Sound w
      → Readable string w
      → Writable buffer size w
      → Ends (grip_json_parse_string string buffer size w)
  unfolding grip_json_parse_string
  grip_json_parse_string-Ends w string buffer size s r b = Ends-returned (
      Ends-bind (try_str_from_ptr-Fine Message.not_utf8 s r)
        λ t v sv g q. parsed-Ends (e.from_slice t) sv (Writable-Onward g b))
