-- ===== src/Ffi.antt =====
-- rust/src/ffi: the functions that the C++ side calls.
pub mod World
pub mod Ext
pub mod Reads
pub mod Arrays
pub mod Index
pub mod Objects
pub mod Values
pub mod Responses
pub mod Requests
pub mod Files
pub mod Equals
pub mod Init
pub mod Delivered
pub mod Frames
pub mod Timed
pub mod Handles
pub mod Sharing
pub mod Issues
pub mod Cancels
pub mod Members
pub mod Saves
pub mod Settings
pub mod Safe
pub mod Calls
pub mod Sample
mod Tests
