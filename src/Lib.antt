-- ===== src/Lib.antt =====
-- Timely dataflow: the data structures by which a worker learns which timestamps may still arrive at a
-- location, those by which it schedules operators, and those by which operators send records.
--
-- A `ChangeBatch` collects changes `(T, i64)` to counts of timestamps and consolidates them lazily.
-- A `MutableAntichain` holds such counts together with their frontier, the minimal ones of the times
-- that count, and reports how a batch of changes moves it. Its queries are those of an `Antichain`.
-- Timestamps are partially ordered, and totally ordered besides for sorting; nested scopes pair
-- them, and path summaries say how they change on the way from one location to another. A `Tracker`
-- has two `MutableAntichain`s at each location of a dataflow graph: the pointstamps, which its client
-- changes, and the implications, the times that may still arrive there. `propagate_all` drains the
-- buffered changes, and passes every change of a frontier on along the graph by a worklist.
-- An operator may send at a time while it holds a `Capability` for it; each change to its capabilities
-- goes into a `ChangeBatch`, which is drained into the progress tracking, and so does each change to the
-- number of records in a channel, from the counters at its ends. An operator gives its records to a
-- `Buffer`, which pushes them in batches; an `Exchange` distributes them over the workers. `Activations`
-- says which operators run next. `Bytes` are slices of shared allocations, in which messages lie that
-- go to other workers.
--
-- The files, and the code that they model (paths from the repository's root):
--   Order, Order/Product: timely/src/order.rs. `PartialOrder`, the unsigned integers, `Product`.
--   Timestamp: `PathSummary` of timely/src/progress/timestamp.rs, and of timely/src/order.rs, for the unsigned
--     integers and `Product`. The signed integers of the same macros have no model.
--   Int64: the arithmetic of i64 on bit patterns. Sums wrap around, as in a release build.
--   Updates: the sort, loop and `retain` that `ChangeBatch::compact` and
--     `MutableAntichain::rebuild` share. `count` is what updates add up to at a key.
--   ChangeBatch: timely/src/progress/change_batch.rs, every method.
--   Antichain, Antichain/Ref: `Antichain` and `AntichainRef` of timely/src/progress/frontier.rs.
--   MutableAntichain: `MutableAntichain` of timely/src/progress/frontier.rs. The `while` loop of
--     `update_iter` is a recursion on the dirty suffix.
--   Location: `Port`, `Location`, `Source` and `Target` of timely/src/progress/mod.rs, with the derived
--     orders by Order/Derived.
--   Reachability, Reachability/Loops: `Tracker` of timely/src/progress/reachability.rs. `apply_inputs` is the first step
--     of `propagate_all` and `round` one round of its `while` loop; `act` is the branch for a net
--     change and `successors` what its loops push. `Option` stands for the panic of an index out of
--     range. Reachability/Balance has the invariant, Rounds and Apply that the two steps keep it,
--     Propagate the whole. Reachability/Arrivals says without the loops what arrives where: a count of the
--     summaries and edges of the graph.
--   Builder: `Builder` of timely/src/progress/reachability.rs, `new`, `add_node` and `add_edge`.
--   Activations: `Activations` of timely/src/scheduling/activate.rs. `settle` is the end of `advance`, from
--     the drain of the bounds; Paths has the invariant of the slices, Timers the heap.
--   Capability: timely/src/dataflow/operators/capability.rs, over the cells of an operator. `Step` is one
--     call with capabilities, and takes those it consumes out of the live ones. Capability/Set is
--     `CapabilitySet`, whose `delayed` and `downgrade` are `set_delayed` and `set_downgrade`.
--   Channels: `Message` of timely/src/dataflow/channels/mod.rs, and pushers as an interface, whose law is
--     that a pusher has received what was pushed. Channels/Buffer: pushers/buffer.rs there.
--     Channels/Exchange: pushers/exchange.rs there. Channels/Counted: pushers/counter.rs and
--     pullers/counter.rs there, around communication/src/allocator/counters.rs and thread.rs.
--   Bytes: bytes/src/lib.rs, over a memory of allocations. `Step` is one call with live slices.
--   MergeQueue: `MergeQueue` of communication/src/allocator/zero_copy/bytes_exchange.rs. A call is one step,
--     since it holds the lock; the try_lock loop, which waits for it, is left out.
--   Sorting: `sort_by_key` and `dedup_by_key` of the standard library. Order/Sequence: its order of slices.
--   Distinct: lists without repetition. Prelude: shared names and lemmas. Tests: runs, and the
--     theorems at concrete inputs.
--
-- A method with `&mut self` returns the new state, beside its result where it has one; an iterator
-- that drains is taken to be dropped at once. `sort_by` is stable, so it is modelled by the stable
-- insertion sort, which has the same result. `Ord` is the test `a.cmp(b) != Greater`. Each loop is a
-- recursion on a list but the `while` loop of `propagate_all`, which is cut off after a number of
-- rounds: what is proved of it holds for every number, and that the loop ends is not proved, since it
-- does not on a graph with a cycle that leaves a time as it is. The heap of its worklist is the sorted
-- list of its entries. The debug assertions that no update is dirty are hypotheses of
-- the theorems on the queries, those on the summary those of the theorem on `add_node`; `add_edge` is that
-- of a debug build, and panics where a port is missing. What a channel between threads has to receive and
-- what a clock shows are arguments. Shared cells are known by their position in a list, and allocations
-- too; that an allocation stays where it is while it is shared is taken for granted. The hash function of
-- an `Exchange` is taken to be pure. Hashing, serialisation and printing
-- are not modelled, nor are `Builder::is_acyclic` and the making of a `Tracker` from a `Builder`,
-- subgraphs and the broadcast of progress, notificators, `Tee` and the logging of channels, the operators
-- themselves, the step loop of a worker, and the rest of the communication between threads and processes. The
-- wrappers of an FPGA are bound to a device, and are left out.
pub mod Prelude
pub mod Order
pub mod Timestamp
pub mod Sorting
pub mod Int64
pub mod Updates
pub mod ChangeBatch
pub mod Distinct
pub mod Antichain
pub mod MutableAntichain
pub mod Location
pub mod Builder
pub mod Reachability
mod Tests
pub mod Activations
pub mod Bytes
pub mod Channels
pub mod Capability
pub mod MergeQueue
