-- ===== src/Ffi/Safe.antt =====
-- No undefined behaviour: the state in which every reference leads to something, and what a step
-- from such a state may do.
pub mod Macros
pub mod Arrays
pub mod Values
pub mod Index
pub mod Objects
pub mod Members
pub mod Module
pub mod Frames
pub mod Files
use grip.Common.{ℕ, ◌+◌, ◌≤◌, ◌<◌, ◌≡◌, refl, sym, ◌∙◌, ap, Option, none, some, arith}
use grip.Common.Int.{ℤ}
use grip.Errors.{ffi, Message}
use grip.Env.{Env}
use grip.CellMap.{CellMap, get_with_id}
use grip.Gc.Heap.{Heap}
use grip.Gc.Closed.{Closed, Grown, Grown-refl, Grown-trans}
use grip.Ffi.World.{
  World, ModuleStorage, Failure, Outcome, done, leave, panic, fault, M, and_then, returned,
}
use grip.Ffi.Ext.{log_error, get_module}

-- Every handle leads to a cell, and every cell to cells.
pub record Sound {e : Env} (w : World e) : Type 0 where
  pub heap : Closed w.heap
  pub handles :
      (m : ModuleStorage e)
      → w.storage ≡ some m
      → (id : ℤ) (a : ℕ) → get_with_id m.json_handles id ≡ some a
      → a < w.heap.next_value

-- A `float` pointer that led to memory still does.
abbrev pub HasFloats : {e : Env} → World e → World e → Type 0
HasFloats {e} w w' =
    (p : ℕ) (x : e.Float) → w.floats p ≡ some x → (y : e.Float) × (w'.floats p ≡ some y)

-- The world has only gained cells, and its memory is as it was.
pub record Onward {e : Env} (w w' : World e) : Type 0 where
  pub heap : Grown w.heap w'.heap
  pub memory : w'.memory ≡ w.memory
  pub floats : HasFloats w w'

-- An outcome in the middle of a function, with what holds of its result.
pub data Fine {e : Env} {A : Type 0} (w : World e) (Q : A → World e → Type 0)
    : Outcome e A → Type 0 where
  goes : {a : A} {v : World e} → Sound v → Onward w v → Q a v → Fine w Q (done a v)
  left : {c : ℤ} {v : World e} → Sound v → Fine w Q (leave c v)
  panicked : {v : World e} → Sound v → Fine w Q (panic v)

-- An outcome at the end of one.
pub data Ends {e : Env} {A : Type 0} : Outcome e A → Type 0 where
  goes : {a : A} {v : World e} → Sound v → Ends (done a v)
  left : {c : ℤ} {v : World e} → Sound v → Ends (leave c v)
  panicked : {v : World e} → Sound v → Ends (panic v)

module _ {e : Env} where
  pub Onward-refl : (w : World e) → Onward w w
  Onward-refl w = record { heap = Grown-refl w.heap; memory = refl; floats = λ p x h. (x, h) }

  pub Onward-trans : {w v u : World e} → Onward w v → Onward v u → Onward w u
  Onward-trans p q = record {
    heap = Grown-trans p.heap q.heap;
    memory = q.memory ∙ p.memory;
    floats = λ r x h. let (y, k) = p.floats r x h in q.floats r y k;
  }

  abbrev pub Any : {A : Type 0} → A → World e → Type 0
  Any a w = Unit

  pub Fine-pure :
      {A : Type 0} {w : World e} {Q : A → World e → Type 0} {a : A}
      → Sound w
      → Q a w
      → Fine w Q (done a w)
  Fine-pure {w} s q = Fine.goes s (Onward-refl w) q

  Fine-Onward :
      {A : Type 0} {w v : World e} {Q : A → World e → Type 0} {o : Outcome e A}
      → Onward w v
      → Fine v Q o
      → Fine w Q o
  Fine-Onward g (Fine.goes s h q) = Fine.goes s (Onward-trans g h) q
  Fine-Onward g (Fine.left s) = Fine.left s
  Fine-Onward g (Fine.panicked s) = Fine.panicked s

  pub Fine-bind :
      {A B : Type 0} {w : World e} {Q : A → World e → Type 0} {R : B → World e → Type 0}
      {o : Outcome e A} {f : A → M e B}
      → Fine w Q o
      → ((a : A) (v : World e) → Sound v → Onward w v → Q a v → Fine v R (f a v))
      → Fine w R (and_then o f)
  Fine-bind (Fine.goes {a} {v} s g q) k = Fine-Onward g (k a v s g q)
  Fine-bind (Fine.left s) k = Fine.left s
  Fine-bind (Fine.panicked s) k = Fine.panicked s

  -- A weaker statement of the result.
  pub Fine-map :
      {A : Type 0} {w : World e} {Q R : A → World e → Type 0} {o : Outcome e A}
      → Fine w Q o
      → ((a : A) (v : World e) → Sound v → Onward w v → Q a v → R a v)
      → Fine w R o
  Fine-map (Fine.goes {a} {v} s g q) k = Fine.goes s g (k a v s g q)
  Fine-map (Fine.left s) k = Fine.left s
  Fine-map (Fine.panicked s) k = Fine.panicked s

  pub Ends-bind :
      {A B : Type 0} {w : World e} {Q : A → World e → Type 0} {o : Outcome e A} {f : A → M e B}
      → Fine w Q o
      → ((a : A) (v : World e) → Sound v → Onward w v → Q a v → Ends (f a v))
      → Ends (and_then o f)
  Ends-bind (Fine.goes {a} {v} s g q) k = k a v s g q
  Ends-bind (Fine.left s) k = Ends.left s
  Ends-bind (Fine.panicked s) k = Ends.panicked s

  pub Ends-then :
      {A B : Type 0} {o : Outcome e A} {f : A → M e B}
      → Ends o
      → ((a : A) (v : World e) → Sound v → Ends (f a v))
      → Ends (and_then o f)
  Ends-then (Ends.goes {a} {v} s) k = k a v s
  Ends-then (Ends.left s) k = Ends.left s
  Ends-then (Ends.panicked s) k = Ends.panicked s

  pub Fine-Ends :
      {A : Type 0} {w : World e} {Q : A → World e → Type 0} {o : Outcome e A} → Fine w Q o → Ends o
  Fine-Ends (Fine.goes s g q) = Ends.goes s
  Fine-Ends (Fine.left s) = Ends.left s
  Fine-Ends (Fine.panicked s) = Ends.panicked s

  pub Ends-returned : {o : Outcome e ℤ} → Ends o → Ends (returned o)
  Ends-returned (Ends.goes s) = Ends.goes s
  Ends-returned (Ends.left s) = Ends.goes s
  Ends-returned (Ends.panicked s) = Ends.panicked s
