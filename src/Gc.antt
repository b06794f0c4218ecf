-- ===== src/Gc.antt =====
-- rust/src/gc_json.rs: JSON values on a garbage-collected heap. A `GCValue` is a counted reference
-- to a cell that holds an `InnerValue`: an address here. An object holds its members through
-- `Rc<RefCell<GCValue>>`, a second kind of cell: a slot. Cells are never reused, since an
-- unreachable cell cannot be observed. `none` is a read of a cell that was never made.
pub mod Value
pub mod Heap
pub mod Convert
pub mod RoundTrip
pub mod Clone
pub mod Isolated
pub mod DeepClone
pub mod Closed
pub mod Total
pub mod Equal
mod Tests
