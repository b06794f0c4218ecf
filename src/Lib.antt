-- ===== src/Lib.antt =====
-- gRIP is a plugin module for AMX Mod X game servers: Pawn scripts send HTTP requests and work with
-- JSON through it. The C++ side (cpp/) passes the natives on to the functions that rust/src/ffi
-- exports. Those keep everything in one `ModuleStorage`: a queue of requests and four tables from
-- handles to bodies, cancellations, JSON values and request options. A request leaves by the queue
-- with a callback; a worker thread runs it; once per frame of the server the queue delivers
-- finished requests by calling their callbacks, which run the script's handler.
--
-- The files, and the code they are about:
--   CellMap       rust/src/cell_map.rs: tables with generated handles. Laws: one operation.
--                 History: whole histories.
--   Strlcpy       rust/src/ffi/strlcpy.rs: the bounded copy of a C string; both loops over explicit
--                 buffers. Laws, Total: what it computes.
--   Gc            rust/src/gc_json.rs: Value is serde_json's tree; Heap the shared mutable values,
--                 with one store for the `Cc` cells and one for the `Rc` slots of objects; Convert
--                 the conversions and the deep copy. RoundTrip, Clone, Isolated, DeepClone: laws.
--                 Closed, Total: heaps in which every reference leads somewhere. Equal: the
--                 derived equality, with Same and Clean, its laws.
--   Errors        rust/src/lib.rs: the error kinds, and a message for each text of an error.
--   Queue         rust/src/networking_queue.rs: the types, and the operations of the game's thread.
--                 Worker: the worker thread and its tasks, `Step` by `Step` in any order. Accounts,
--                 Pending, Bags, Origins, Drains: laws of all reachable states.
--   Ffi/World     rust/src/ffi/mod.rs: `ModuleStorage`; the world around it and the result of a call.
--   Ffi/Ext       rust/src/ffi/ext.rs: the macros and the helpers with pointers.
--   Ffi/Index     rust/src/ffi/ext.rs: `ValueExt`, members by name and by dotted path. Paths,
--                 Inserts, Walks: laws.
--   Ffi/Reads     rust/src/ffi/mod.rs: what the functions that read a value have in common.
--   Ffi/Values, Ffi/Arrays, Ffi/Objects    rust/src/ffi/mod.rs: `grip_json_*`.
--   Ffi/Responses                          rust/src/ffi/mod.rs: bodies, options, responses.
--   Ffi/Requests                           rust/src/ffi/mod.rs: requests, callbacks, frames.
--   Ffi/Files                              rust/src/ffi/mod.rs: JSON in files. Ffi/Saves: laws.
--   Ffi/Init                               rust/src/ffi/mod.rs: `grip_init`. Ffi/Settings: laws.
--   Ffi/Equals                             rust/src/ffi/mod.rs: `grip_json_equals`, with its laws.
--   Ffi/Timed     rust/src/networking_queue.rs: `execute_query_with_timeout`, with its law.
--   Ffi/Delivered, Ffi/Frames, Ffi/Handles, Ffi/Sharing, Ffi/Members, Ffi/Issues, Ffi/Cancels
--                 laws.
--   Ffi/Calls     the exported functions as one type of calls. Contract: what a caller owes, and
--                 sequences of calls. Safety: that they run into nothing undefined. Ffi/Safe: the
--                 parts of that proof, file by file as the functions are.
--   Ffi/Sample    a small world, at which the laws are applied.
--   Deps, Env     the packages the code relies on, as parameters: indexmap, the numbers of
--                 serde_json and its reader and writer, reqwest, error_chain's text, and
--                 `isize::MAX`. Their Sample modules hold one concrete instance.
--   Utf8          the check of `CStr::to_str`.
--   Common        notation, lists, integers, byte strings.
--
-- An exported function is a function on the world. Its outcome is a result with a new world, a
-- panic, or `fault` for undefined behaviour such as a read through a null pointer. The `return 0` of
-- the logging macros is the outcome `leave`, which ends at the function's border. A pointer is a
-- number; what it leads to is in the world. The C++ handlers are a parameter, functions on the
-- world; so is the collector of the bacon_rajan_cc package, whose use rust/src/gc_json.rs decides. Machine integers are numbers with their wrap-around written out, for a release build. The
-- reads of the clock are arguments.
--
-- Loops are structural. `copy_loop` runs on `dsize` - 1, the conversions on the recursion limit less
-- one (the code's own bound), and the loop that delivers results on `limit` + 1 rounds, the number of
-- times that `counter <= limit` can hold. `execute_query_with_timeout` runs on a number of rounds,
-- and its law says how many are enough: one more than there are readings of the clock in time. `grip_json_equals` runs on the room that
-- the stack has, and its law says how much is enough. For the other recursions, those of the
-- conversions and copies, the stack is taken to have room: the recursion limit of the caller bounds
-- them, but for the limit 0, which wraps. So it is for the values that the text of an error prints,
-- which the model leaves out.
--
-- The worker and its tasks are a relation: any spawned send, the next command, any task that can
-- end, the game's thread and the clock may go on at any time. A server answers what the parameter
-- `Server` allows, or never. The drop of the runtime, after the command to quit, loses what is left;
-- the thread that stops the queue is taken to have waited for it.
--
-- The contents of files are in the world; whether one can be opened, created or written, and the
-- reader of INI files, are parameters.
--
-- Not modelled: `Trace`, by which the collector visits the cells; the borrow flags of `RefCell`; the
-- failures of the timer, which the queue reports as timeouts too; the formatted text of errors; the
-- C++ side, the scripts and the build files.
pub mod Common
pub mod CellMap
pub mod Strlcpy
pub mod Deps
pub mod Gc
pub mod Utf8
pub mod Errors
pub mod Env
pub mod Queue
pub mod Ffi
