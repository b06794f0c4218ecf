-- ===== src/Ffi/Safe/Arrays.antt =====
-- The functions of rust/src/ffi/mod.rs on JSON arrays keep a sound world.
use grip.Common.{
  Bool-cases, inl, inr, ◌==◌, ℕ, ◌<◌, refl, [], ◌∷◌, ◌++◌, arith, All-snoc, All-set, All-vec_remove,
  set, vec_remove,
}
use grip.Common.Int.{ℤ, pos}
use grip.Errors.{Message, ffi}
use grip.Env.{Env}
use grip.Gc.Heap.{InnerValue, update}
use grip.Gc.Value.{Value}
use grip.Ffi.World.{World, Outcome, M, pure, and_then, returned}
use grip.Ffi.Ext.{chain_err, try_str_from_ptr, try_to_get_json_value_gc, gc_json}
use grip.Ffi.Reads.{as_number, read_number, write_float, read_float, read_bool}
use grip.Ffi.Arrays.{
  grip_json_array_get_value, grip_json_array_get_number, grip_json_array_get_float,
  grip_json_array_get_bool, grip_json_array_get_count, replace_with, catch_unwind, push_onto,
  grip_json_array_remove, grip_json_array_clear,
}
use grip.Ffi.Safe.{
  HasFloats, Onward-trans, Sound, Onward, Onward-refl, Fine, Any, Fine-pure, Fine-bind, Ends,
  Fine-Ends, Ends-returned,
}
use grip.Ffi.Safe.Macros.{
  Floating, Floating-Onward, Cell, Readable, Readable-Onward, try_and_log_ffi-Fine,
  unconditionally-Fine, try_str_from_ptr-Fine, try_as_usize-Fine, unwrap-Fine, handle-Fine,
  borrow_inner-Fine, array-Fine, array_mut-Fine, array_value-Fine, array_value_mut-Fine,
  Cells-Onward, write_inner-Fine, gc_json-Fine, insert_json-Fine, log_error-Fine,
}

module _ {e : Env} where
  -- An action that gives a cell, in every world from `w` on.
  abbrev pub Maker : World e → M e ℕ → Type 0
  Maker w new = (v : World e) → Sound v → Onward w v → Fine v Cell (new v)

  pub gc_json-Maker : (w : World e) (x : Value e.deps) → Maker w (gc_json x)
  gc_json-Maker w x v s g = gc_json-Fine x s

  pub handle-Maker : (w : World e) (value : ℤ) → Maker w (try_to_get_json_value_gc value)
  handle-Maker w value v s g = handle-Fine value s

  -- The content that the getters read.
  as_number-Fine : {w : World e} (v : InnerValue e.deps) → Sound w → Fine w Any (as_number v w)
  unfolding as_number
  as_number-Fine (InnerValue.number n) s = Fine-pure s tt
  as_number-Fine (InnerValue.array cells) s = unconditionally-Fine _ s
  as_number-Fine InnerValue.null s = unconditionally-Fine _ s
  as_number-Fine (InnerValue.bool b) s = unconditionally-Fine _ s
  as_number-Fine (InnerValue.string x) s = unconditionally-Fine _ s
  as_number-Fine (InnerValue.object m) s = unconditionally-Fine _ s

  pub read_bool-Fine :
      {w : World e} (m : Message) (v : InnerValue e.deps) → Sound w → Fine w Any (read_bool m v w)
  unfolding read_bool
  read_bool-Fine m (InnerValue.bool b) s = Fine-pure s tt
  read_bool-Fine m (InnerValue.number n) s = unconditionally-Fine _ s
  read_bool-Fine m (InnerValue.array cells) s = unconditionally-Fine _ s
  read_bool-Fine m InnerValue.null s = unconditionally-Fine _ s
  read_bool-Fine m (InnerValue.string x) s = unconditionally-Fine _ s
  read_bool-Fine m (InnerValue.object o) s = unconditionally-Fine _ s

  pub read_number-Fine :
      {w : World e} (v : InnerValue e.deps) → Sound w → Fine w Any (read_number v w)
  unfolding read_number
  read_number-Fine v s = Fine-bind (as_number-Fine v s) λ n u su g q.
      Fine-bind (try_and_log_ffi-Fine (chain_err (e.as_i64 n) Message.not_integer) su)
        λ z t st h r. Fine-pure st tt

  update-HasFloats :
      (w : World e) (ret : ℕ) (x : e.Float)
      → HasFloats w (record w { floats = update w.floats ret x })
  update-HasFloats w ret x p y h = elim (Bool-cases (ret == p)) [
    | inl hit ↦ (x, rw hit refl)
    | inr miss ↦ (y, rw miss h)
  ]

  pub write_float-Fine :
      {w : World e} {ret : ℕ} (x : e.Float)
      → Sound w
      → Floating ret w
      → Fine w Any (write_float ret x w)
  unfolding write_float
  write_float-Fine {w} {ret} x s r =
      rw (write_float, r.nonzero)
        (rw r.floats (
          Fine.goes (record { heap = s.heap; handles = s.handles })
            (record {
              heap = (Onward-refl w).heap;
              memory = refl;
              floats = update-HasFloats w ret x;
            })
            tt))

  pub read_float-Fine :
      {w : World e} {ret : ℕ} (v : InnerValue e.deps)
      → Sound w
      → Floating ret w
      → Fine w Any (read_float ret v w)
  unfolding read_float
  read_float-Fine v s f = Fine-bind (as_number-Fine v s) λ n u su g q.
      Fine-bind (try_and_log_ffi-Fine (chain_err (e.as_f64 n) Message.not_float) su) λ x t st h r.
        Fine-bind {f = λ _. pure (pos 1)}
          (write_float-Fine (e.to_f32 x) st (Floating-Onward (Onward-trans g h) f))
          λ _ z sz k p. Fine-pure sz tt

  -- What runs under `exported`, and under `catch_unwind`.
  pub exported-Ends :
      {w : World e} {Q : ℤ → World e → Type 0} {o : Outcome e ℤ} → Fine w Q o → Ends (returned o)
  exported-Ends f = Ends-returned (Fine-Ends f)

  pub catch_unwind-Ends :
      (w : World e) (m : M e ℤ) → Ends (m w) → Ends (returned (catch_unwind m w))
  unfolding catch_unwind
  catch_unwind-Ends w m f = go f
    where
      go : {o : Outcome e ℤ} → Ends o → Ends (returned (catch_unwind (λ _. o) w))
      go (Ends.goes s) = Ends.goes s
      go (Ends.left s) = Ends.goes s
      go (Ends.panicked s) =
          exported-Ends (
            Fine-bind {R = Any} (log_error-Fine (ffi Message.panicked) s)
              λ u x sx g q. Fine.left sx)

  pub replace_with-Fine :
      {w : World e} (array index : ℤ) (new : M e ℕ)
      → Sound w
      → Maker w new
      → Fine w Any (replace_with array index new w)
  unfolding replace_with
  replace_with-Fine {w} array index new s maker =
      Fine-bind (maker w s (Onward-refl w)) λ b v sv g l.
        Fine-bind (array_value_mut-Fine array index sv) λ p u su h r.
          Fine-bind {f = λ _. pure (pos 1)}
            (write_inner-Fine p.0 (InnerValue.array (set p.1 p.2 b)) su
              (All-set (λ a. a < u.heap.next_value) p.1 p.2 b r.1 (omega (arith, h.heap.value))))
            λ _ z sz k x. Fine-pure sz tt

  pub push_onto-Fine :
      {w : World e} (array : ℤ) (new : M e ℕ)
      → Sound w
      → Maker w new
      → Fine w Any (push_onto array new w)
  unfolding push_onto
  push_onto-Fine array new s maker = Fine-bind (array_mut-Fine array s) λ p v sv g r.
      Fine-bind (maker v sv g) λ b u su h l.
        Fine-bind {f = λ _. pure (pos 1)}
          (write_inner-Fine p.0 (InnerValue.array (p.1 ++ b ∷ [])) su
            (All-snoc (λ a. a < u.heap.next_value) p.1 b (Cells-Onward p.1 h r.1) l))
          λ _ z sz k x. Fine-pure sz tt

  -- The functions that are longer than one of these.
  pub grip_json_array_get_value-Ends :
      (w : World e) (array index : ℤ) → Sound w → Ends (grip_json_array_get_value array index w)
  unfolding grip_json_array_get_value
  grip_json_array_get_value-Ends w array index s =
      exported-Ends
        (Fine-bind (array_value-Fine array index s) λ a v sv g l. insert_json-Fine a sv l)

  pub grip_json_array_get_number-Ends :
      (w : World e) (array index : ℤ) → Sound w → Ends (grip_json_array_get_number array index w)
  unfolding grip_json_array_get_number
  grip_json_array_get_number-Ends w array index s = exported-Ends (
      Fine-bind (array_value-Fine array index s)
        λ a v sv g l. Fine-bind (borrow_inner-Fine sv l) λ c u su h r. read_number-Fine c su)

  pub grip_json_array_get_float-Ends :
      (w : World e) (array index : ℤ) (ret : ℕ)
      → Sound w
      → Floating ret w
      → Ends (grip_json_array_get_float array index ret w)
  unfolding grip_json_array_get_float
  grip_json_array_get_float-Ends w array index ret s f = exported-Ends (
      Fine-bind (array_value-Fine array index s) λ a v sv g l.
        Fine-bind (borrow_inner-Fine sv l)
          λ c u su h r. read_float-Fine c su (Floating-Onward (Onward-trans g h) f))

  pub grip_json_array_get_bool-Ends :
      (w : World e) (array index : ℤ) → Sound w → Ends (grip_json_array_get_bool array index w)
  unfolding grip_json_array_get_bool
  grip_json_array_get_bool-Ends w array index s = exported-Ends (
      Fine-bind (array_value-Fine array index s) λ a v sv g l.
        Fine-bind (borrow_inner-Fine sv l) λ c u su h r. read_bool-Fine Message.not_number c su)

  pub grip_json_array_get_count-Ends :
      (w : World e) (array : ℤ) → Sound w → Ends (grip_json_array_get_count array w)
  unfolding grip_json_array_get_count
  grip_json_array_get_count-Ends w array s =
      exported-Ends {Q = Any} (Fine-bind (array-Fine array s) λ cells v sv g r. Fine-pure sv tt)

  pub grip_json_array_remove-Ends :
      (w : World e) (array index : ℤ) → Sound w → Ends (grip_json_array_remove array index w)
  unfolding grip_json_array_remove
  grip_json_array_remove-Ends w array index s = exported-Ends {Q = Any} (
      Fine-bind (array_mut-Fine array s) λ p v sv g r.
        Fine-bind (try_as_usize-Fine index sv) λ i u su h q.
          Fine-bind (unwrap-Fine (vec_remove i p.1) su) λ rest t st k z.
            Fine-bind {f = λ _. pure (pos 1)}
              (write_inner-Fine p.0 (InnerValue.array rest) st (
                All-vec_remove (λ a. a < t.heap.next_value) i p.1 rest z
                  (Cells-Onward p.1 k (Cells-Onward p.1 h r.1))))
              λ _ x sx m y. Fine-pure sx tt)

  pub grip_json_array_clear-Ends :
      (w : World e) (array : ℤ) → Sound w → Ends (grip_json_array_clear array w)
  unfolding grip_json_array_clear
  grip_json_array_clear-Ends w array s = exported-Ends {Q = Any} (
      Fine-bind (array_mut-Fine array s) λ p v sv g r.
        Fine-bind {f = λ _. pure (pos 1)} (write_inner-Fine p.0 (InnerValue.array []) sv tt)
          λ _ x sx m y. Fine-pure sx tt)

  -- A text that the C side points to.
  pub string-Maker :
      (w : World e) (string : ℕ)
      → Readable string w
      → Maker w
          (λ v. and_then (try_str_from_ptr string Message.not_utf8 v) λ s. gc_json (Value.string s))
  string-Maker w string r v sv g =
      Fine-bind (try_str_from_ptr-Fine Message.not_utf8 sv (Readable-Onward g r))
        λ s u su h q. gc_json-Fine (Value.string s) su
