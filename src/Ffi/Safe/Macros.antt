-- ===== src/Ffi/Safe/Macros.antt =====
-- The macros of rust/src/ffi/ext.rs keep a sound world and run into nothing undefined.
use grip.Common.{
  ℕ, ◌<◌, ◌≡◌, refl, sym, ◌∙◌, ap, false, Option, none, some, List, arith, All, All-map, All_elem,
  get_elem?, ◌==◌, Bool-cases, inl, inr,
}
use mathlib.Core.Option.{some-injective, some-ne-none}
use grip.Common.Int.{ℤ, pos, negsuc, int_eq}
use grip.Common.Bytes.{Bytes, c_string}
use grip.Errors.{Result, ok, err, Message, Error, ffi}
use grip.Env.{Env}
use grip.CellMap.{get_with_id, insert_with_unique_id, remove_with_id}
use grip.CellMap.Laws.{get-remove, insert-get}
use grip.Gc.Value.{Value}
use grip.Gc.Heap.{InnerValue, Heap}
use grip.Gc.Closed.{Refers, Closed, Grown, write-Closed, write-Grown}
use grip.Gc.Total.{from_value-Made}
use grip.Ffi.World.{World, ModuleStorage, Failure, done, pure, unwrap}
use grip.Ffi.Ext.{
  chain_err, get_module, put_module, log_error, try_and_log_ffi, try_option,
  unconditionally_log_error, c_str, try_str_from_ptr, try_as_usize, try_to_get_json_value_gc,
  borrow_inner, borrow_slot, try_to_get_json_value, as_array, try_to_get_json_array,
  try_to_get_json_array_mut, try_to_get_json_array_value, try_to_get_json_array_value_mut,
  write_inner, gc_json, insert_json,
}
use grip.Ffi.Safe.{Sound, Onward, Onward-refl, Fine, Any, Fine-pure, Fine-bind, Fine-map}

pub chain_err-ok :
    {A H J : Type 0} (o : Option A) (m : Message) (a : A)
    → ◌≡◌ {A = Result A (Error H J)} (chain_err o m) (ok a)
    → o ≡ some a
chain_err-ok none m a q = absurd cc
chain_err-ok (some b) m a q = cc

module _ {e : Env} where
  -- What is known of an address, a slot, a content, a list of cells.
  abbrev pub Cell : ℕ → World e → Type 0
  Cell a w = a < w.heap.next_value

  abbrev pub Slot : ℕ → World e → Type 0
  Slot s w = s < w.heap.next_slot

  abbrev pub Content : InnerValue e.deps → World e → Type 0
  Content v w = Refers w.heap v

  abbrev pub Cells : List ℕ → World e → Type 0
  Cells cells w = All (λ a. a < w.heap.next_value) cells

  -- A pointer to a C string.
  pub record Readable (p : ℕ) (w : World e) : Type 0 where
    pub bytes : Bytes
    pub text : Bytes
    pub nonzero : (p == 0) ≡ false
    pub memory : w.memory p ≡ some bytes
    pub string : c_string bytes ≡ some text

  pub Readable-Onward : {w v : World e} {p : ℕ} → Onward w v → Readable p w → Readable p v
  Readable-Onward {p} g r = record {
    bytes = r.bytes;
    text = r.text;
    nonzero = r.nonzero;
    memory = ap (λ f. f p) g.memory ∙ r.memory;
    string = r.string;
  }

  -- A pointer to a `float`.
  pub record Floating (p : ℕ) (w : World e) : Type 0 where
    pub old : e.Float
    pub nonzero : (p == 0) ≡ false
    pub floats : w.floats p ≡ some old

  pub Floating-Onward : {w v : World e} {p : ℕ} → Onward w v → Floating p w → Floating p v
  Floating-Onward {p} g r =
      let (y, k) = g.floats p r.old r.floats in record { old = y; nonzero = r.nonzero; floats = k }

  -- The same heap and handles, with something else changed.
  Sound-logged : {w : World e} (l : List (Failure e)) → Sound w → Sound (record w { logged = l })
  Sound-logged l s = record { heap = s.heap; handles = s.handles }

  abbrev pub Stored : ModuleStorage e → World e → Type 0
  Stored m w = w.storage ≡ some m

  pub get_module-Fine : {w : World e} → Sound w → Fine w Stored (get_module w)
  unfolding get_module
  get_module-Fine {w} s = go w.storage refl
    where
      go : (o : Option (ModuleStorage e)) → w.storage ≡ o → Fine w Stored (unwrap o w)
      go none p = Fine.panicked s
      go (some m) p = Fine-pure s p

  pub log_error-Fine : {w : World e} (x : Failure e) → Sound w → Fine w Any (log_error x w)
  unfolding log_error
  log_error-Fine x s = Fine-bind (get_module-Fine s) λ m v sv g q.
      Fine.goes (Sound-logged _ sv)
        (record { heap = (Onward-refl v).heap; memory = refl; floats = λ p x h. (x, h) }) tt

  pub try_and_log_ffi-Fine :
      {A : Type 0} {w : World e} (r : Result A (Failure e))
      → Sound w
      → Fine w (λ a v. r ≡ ok a) (try_and_log_ffi r w)
  unfolding try_and_log_ffi
  try_and_log_ffi-Fine (ok a) s = Fine-pure s refl
  try_and_log_ffi-Fine (err x) s = Fine-bind (log_error-Fine x s) λ u v sv g q. Fine.left sv

  pub unconditionally-Fine :
      {A : Type 0} {w : World e} {Q : A → World e → Type 0} (m : Message)
      → Sound w
      → Fine w Q (unconditionally_log_error m w)
  unfolding unconditionally_log_error
  unconditionally-Fine m s = Fine-bind (log_error-Fine (ffi m) s) λ u v sv g q. Fine.left sv

  pub try_option-Fine :
      {A : Type 0} {w : World e} (o : Option A)
      → Sound w
      → Fine w (λ a v. o ≡ some a) (try_option o w)
  unfolding try_option
  try_option-Fine o s = Fine-map (try_and_log_ffi-Fine _ s) λ a v sv g q. chain_err-ok o _ a q

  pub try_as_usize-Fine :
      {w : World e} (z : ℤ) → Sound w → Fine w (λ n v. z ≡ pos n) (try_as_usize z w)
  unfolding try_as_usize
  try_as_usize-Fine (pos n) s = Fine-pure s refl
  try_as_usize-Fine (negsuc n) s = unconditionally-Fine _ s

  pub c_str-Fine : {w : World e} {p : ℕ} → Sound w → Readable p w → Fine w Any (c_str p w)
  unfolding c_str
  c_str-Fine s r = rw (c_str, r.nonzero) (rw r.memory (rw r.string (Fine-pure s tt)))

  pub try_str_from_ptr-Fine :
      {w : World e} {p : ℕ} (m : Message)
      → Sound w
      → Readable p w
      → Fine w Any (try_str_from_ptr p m w)
  unfolding try_str_from_ptr
  try_str_from_ptr-Fine m s r =
      Fine-bind (c_str-Fine s r) λ t v sv g q. Fine-map (try_and_log_ffi-Fine _ sv) λ u x sx h z. tt

  pub handle-Fine :
      {w : World e} (value : ℤ) → Sound w → Fine w Cell (try_to_get_json_value_gc value w)
  unfolding try_to_get_json_value_gc
  handle-Fine value s = Fine-bind (get_module-Fine s) λ m v sv g q.
      Fine-map (try_and_log_ffi-Fine _ sv)
        λ a u su h r. omega (arith, sv.handles m q value a (chain_err-ok _ _ a r), h.heap.value)

  pub borrow_inner-Fine :
      {w : World e} {a : ℕ} → Sound w → Cell a w → Fine w Content (borrow_inner a w)
  unfolding borrow_inner
  borrow_inner-Fine {a} s l = let (v, e, r) = s.heap.value a l in rw e (Fine-pure s r)

  pub borrow_slot-Fine : {w : World e} {s : ℕ} → Sound w → Slot s w → Fine w Cell (borrow_slot s w)
  unfolding borrow_slot
  borrow_slot-Fine {s} sw l = let (a, e, r) = sw.heap.slot s l in rw e (Fine-pure sw r)

  pub value-Fine :
      {w : World e} (value : ℤ) → Sound w → Fine w Content (try_to_get_json_value value w)
  unfolding try_to_get_json_value
  value-Fine value s = Fine-bind (handle-Fine value s) λ a v sv g l. borrow_inner-Fine sv l

  pub as_array-Fine :
      {w : World e} (v : InnerValue e.deps) → Sound w → Content v w → Fine w Cells (as_array v w)
  unfolding as_array
  as_array-Fine (InnerValue.array cells) s r = Fine-pure s r
  as_array-Fine InnerValue.null s r = unconditionally-Fine _ s
  as_array-Fine (InnerValue.bool b) s r = unconditionally-Fine _ s
  as_array-Fine (InnerValue.number n) s r = unconditionally-Fine _ s
  as_array-Fine (InnerValue.string x) s r = unconditionally-Fine _ s
  as_array-Fine (InnerValue.object m) s r = unconditionally-Fine _ s

  pub array-Fine :
      {w : World e} (value : ℤ) → Sound w → Fine w Cells (try_to_get_json_array value w)
  unfolding try_to_get_json_array
  array-Fine value s = Fine-bind (value-Fine value s) λ a v sv g l. as_array-Fine a sv l

  pub array_mut-Fine :
      {w : World e} (value : ℤ)
      → Sound w
      → Fine w (λ p v. Cell p.0 v × Cells p.1 v) (try_to_get_json_array_mut value w)
  unfolding try_to_get_json_array_mut
  array_mut-Fine value s = Fine-bind (handle-Fine value s) λ a v sv g l.
      Fine-bind (borrow_inner-Fine sv l) λ c u su h r.
        Fine-bind (as_array-Fine c su r)
          λ cells t st k rs. Fine-pure st (omega (arith, h.heap.value, k.heap.value), rs)

  pub Cells-Onward : {w v : World e} (cells : List ℕ) → Onward w v → Cells cells w → Cells cells v
  Cells-Onward cells g r = All-map cells (λ a l. omega (arith, g.heap.value)) r

  pub array_value-Fine :
      {w : World e} (array index : ℤ)
      → Sound w
      → Fine w Cell (try_to_get_json_array_value array index w)
  unfolding try_to_get_json_array_value
  array_value-Fine array index s = Fine-bind (array-Fine array s) λ cells v sv g r.
      Fine-bind (try_as_usize-Fine index sv) λ i u su h q.
        Fine-map (try_option-Fine (get_elem? cells i) su) λ a t st k p.
          (omega (
            arith,
            All_elem (λ x. x < v.heap.next_value) cells i a r p,
            h.heap.value,
            k.heap.value,
          ))

  pub array_value_mut-Fine :
      {w : World e} (array index : ℤ)
      → Sound w
      → Fine w (λ p v. Cell p.0 v × Cells p.1 v) (try_to_get_json_array_value_mut array index w)
  unfolding try_to_get_json_array_value_mut
  array_value_mut-Fine array index s = Fine-bind (array_mut-Fine array s) λ p v sv g r.
      Fine-bind (try_as_usize-Fine index sv) λ i u su h q.
        Fine-bind (try_option-Fine (get_elem? p.1 i) su) λ a t st k z. Fine-pure st (
          omega (arith, r.0, h.heap.value, k.heap.value),
          Cells-Onward p.1 k (Cells-Onward p.1 h r.1),
        )

  -- Writing, and the new cells and handles.
  pub write_inner-Fine :
      {w : World e} (a : ℕ) (x : InnerValue e.deps)
      → Sound w
      → Content x w
      → Fine w Any (write_inner a x w)
  unfolding write_inner
  write_inner-Fine {w} a x s r =
      let g = write-Grown a x w.heap in
      Fine.goes
        (record {
          heap = write-Closed a x w.heap s.heap r;
          handles = λ m q id b h. omega (arith, s.handles m q id b h, g.value);
        })
        (record { heap = g; memory = refl; floats = λ p x h. (x, h) }) tt

  -- A heap that has grown, in place of the world's.
  pub with_heap-Fine :
      {w : World e} {A : Type 0} {Q : A → World e → Type 0} {a : A} {h : Heap e.deps}
      → Sound w
      → Closed h
      → Grown w.heap h
      → Q a (record w { heap = h })
      → Fine w Q (done a (record w { heap = h }))
  with_heap-Fine s c g q =
      Fine.goes
        (record { heap = c; handles = λ m p id b r. omega (arith, s.handles m p id b r, g.value) })
        (record { heap = g; memory = refl; floats = λ p x h. (x, h) }) q

  pub gc_json-Fine : {w : World e} (x : Value e.deps) → Sound w → Fine w Cell (gc_json x w)
  unfolding gc_json
  gc_json-Fine {w} x s =
      let m = from_value-Made x w.heap s.heap in with_heap-Fine s m.closed m.grown m.below

  -- A storage whose JSON handles lead to cells.
  abbrev pub Owned : ModuleStorage e → World e → Type 0
  Owned m w = (id : ℤ) (a : ℕ) → get_with_id m.json_handles id ≡ some a → a < w.heap.next_value

  pub Owned-Onward : {w v : World e} (m : ModuleStorage e) → Onward w v → Owned m w → Owned m v
  Owned-Onward m g h id a k = omega (arith, h id a k, g.heap.value)

  pub put_module-Fine :
      {w : World e} (m : ModuleStorage e) → Sound w → Owned m w → Fine w Any (put_module m w)
  unfolding put_module
  put_module-Fine {w} m s h =
      Fine.goes
        (record {
          heap = s.heap;
          handles = λ m' q id a g. h id a (
              ap (λ z. get_with_id z id)
                (ap (λ (n : ModuleStorage e). n.json_handles) (some-injective _ _ q))
              ∙ g);
        })
        (record { heap = (Onward-refl w).heap; memory = refl; floats = λ p x h. (x, h) }) tt

  pub unwrap-Fine :
      {A : Type 0} {w : World e} (o : Option A) → Sound w → Fine w (λ a v. o ≡ some a) (unwrap o w)
  unwrap-Fine none s = Fine.panicked s
  unwrap-Fine (some a) s = Fine-pure s refl

  -- A new handle to a cell: the others are as they were.
  pub insert_json-Fine : {w : World e} (a : ℕ) → Sound w → Cell a w → Fine w Any (insert_json a w)
  unfolding insert_json
  insert_json-Fine a s l = Fine-bind (get_module-Fine s) λ m v sv g q.
      Fine-bind (unwrap-Fine (insert_with_unique_id e.isize_max m.json_handles a) sv) λ p u su h r.
        Fine-bind {f = λ _. pure p.0}
          (put_module-Fine (record m { json_handles = p.1 }) su
            λ id b k. elim (Bool-cases (int_eq m.json_handles.counter id)) [
              | inl new ↦
                  let z : some a ≡ some b =
                    sym (insert-get e.isize_max m.json_handles a p.0 p.1 id r ∙ rw new refl) ∙ k in
                  omega (arith, some-injective _ _ z, l, g.heap.value, h.heap.value)
              | inr old ↦
                  let z : get_with_id m.json_handles id ≡ some b =
                    sym (insert-get e.isize_max m.json_handles a p.0 p.1 id r ∙ rw old refl) ∙ k in
                  omega (arith, sv.handles m q id b z, h.heap.value)
            ])
          λ _ t st x y. Fine-pure st tt

  -- A handle fewer.
  pub remove_json-Fine :
      {w : World e} (m : ModuleStorage e) (value : ℤ)
      → Sound w
      → Stored m w
      → Fine w Any
          (put_module (record m { json_handles = (remove_with_id m.json_handles value).1 }) w)
  remove_json-Fine m value s q =
      put_module-Fine (record m { json_handles = (remove_with_id m.json_handles value).1 }) s
        λ id b k. elim (Bool-cases (int_eq value id)) [
          | inl gone ↦
              absurd (some-ne-none b (sym k ∙ get-remove m.json_handles value id ∙ rw gone refl))
          | inr kept ↦
              s.handles m q id b (sym (get-remove m.json_handles value id ∙ rw kept refl) ∙ k)
        ]
