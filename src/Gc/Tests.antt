-- ===== src/Gc/Tests.antt =====
-- The conversions at a small tree, and their theorems there.
use grip.Common.{[], ◌∷◌, ℕ, ◌≡◌, refl, true, some, none, arith}
use grip.Common.Int.{pos}
use grip.Deps.Sample.{sample}
use grip.Gc.Value.{Value, nil, cons, end, field}
use grip.Gc.Heap.{Heap, IsHeap, Extends-refl}
use grip.Gc.Convert.{from_value, into_with_recursion_limit, deep_clone_with_recursion_limit}
use grip.Gc.Isolated.{Cloned}
use grip.Gc.DeepClone.{deep_clone-Cloned}
use grip.Common.Bytes.{bytes_eq}
use grip.Gc.RoundTrip.{
  depth, WellKeyed, truncate, into-from_value, into-from_value_whole, from_value-IsHeap,
}

abbrev no_cells : Heap sample
no_cells = record { next_value = 0; value = λ a. none; next_slot = 0; slot = λ s. none }

-- {"a": {"b": 123}, "c": [true]}
abbrev tree : Value sample
tree = Value.object (
    field (b'a' ∷ []) (Value.object (field (b'b' ∷ []) (Value.number (pos 123)) end))
      (field (b'c' ∷ []) (Value.array (cons (Value.bool true) nil)) end))

-- {"a": {}, "c": []}
abbrev top : Value sample
top = Value.object (field (b'a' ∷ []) (Value.object end) (field (b'c' ∷ []) (Value.array nil) end))

tree-WellKeyed : WellKeyed tree
unfolding WellKeyed bytes_eq
tree-WellKeyed = (refl, (refl, tt, tt), (refl, (tt, tt), tt))

into-from_value_example :
    into_with_recursion_limit (from_value tree no_cells).1 (from_value tree no_cells).0 2 ≡ some top
unfolding truncate
into-from_value_example = into-from_value tree no_cells 2 tree-WellKeyed

into-from_value_whole_example :
    into_with_recursion_limit (from_value tree no_cells).1 (from_value tree no_cells).0 3
    ≡ some tree
unfolding depth
into-from_value_whole_example =
    into-from_value_whole tree no_cells (from_value tree no_cells).1 3 tree-WellKeyed (omega arith)
      (Extends-refl _)

-- The heap that holds the tree, and the address of its root.
abbrev held : Heap sample
held = (from_value tree no_cells).1

abbrev root : ℕ
root = (from_value tree no_cells).0

held-IsHeap : IsHeap held
held-IsHeap = from_value-IsHeap tree no_cells (record { values = λ a l. refl; slots = λ s l. refl })

deep_clone-Cloned_example :
    (b : ℕ) × (h' : Heap sample) × (deep_clone_with_recursion_limit root 2 held ≡ some (b, h'))
    × Cloned held top b h'
deep_clone-Cloned_example = deep_clone-Cloned root 2 held top held-IsHeap into-from_value_example
