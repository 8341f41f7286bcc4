-- ===== src/Lib.antt =====
-- A verification library for fanring.rs: typed channels built from one bounded single-producer
-- single-consumer ring per sender.
--
-- Yring models yring/src (ring.rs, producer.rs, consumer.rs and `spsc` of lib.rs). `Spsc` is a ring
-- with its two endpoints; the functions keep the source's names. Cursors are words of 64 bits that
-- wrap (`wrapping_add`, `wrapping_sub`), and an index is taken with the mask, as in the source. A
-- slot is an `Option`: `none` is uninitialised or moved-out memory, and a read of it, like an index
-- out of range or a panic, is the outcome `fault`. `Yring.Queue` is the specification, a FIFO in three
-- parts, and `Yring.Sim` relates the two by positions that never wrap.
--
-- Lane models src/mpsc/receiver/lane.rs: the receiver's part of one sender's ring, with the counters
-- that delay slot release and bound a burst. Its consumer is the yring consumer, and `LaneOk` ties the
-- counters to the ring's queue. A publication may come between the release and the recheck of
-- `settle_empty`; the theorem about it covers both cases.
--
-- Registry models `Registry` and `LaneKey` of src/mpsc.rs. A group of src/ready.rs is known by its ID
-- and by the count of groups made before it, which stands for its `Arc`, and a page by its ID and
-- group. A slot number is assumed to fit the machine word.
--
-- Teardown models src/ring.rs under `Coordinated`: `discard` over the yring consumer, and the handoff of
-- `Cleanup` between one sender and its receiver as a step relation, one step for each atomic action.
-- `pop_all` runs on fuel, one round for each slot and one more, which `discard-Refines` shows enough.
--
-- WorkQueue models src/mpmc/work.rs. A mutex makes each half of a steal one step.
--
-- Wait models `WaitCell` of src/wait.rs as a step relation: one waiter that registers, rechecks and
-- parks as src/blocking.rs does, and any number of notifiers. The generation is taken not to wrap.
--
-- Config models src/config.rs: capacity validation and the spin phase. `rounds` is the loop over
-- `SpinWait::step` on fuel, with the clock a function of the fuel that is left.
--
-- Yring.Owner adds `ProducerOwner` and the thread tokens of producer.rs; `Owner.Single` compares the
-- calls of many threads with the bare producer.
--
-- Error holds the errors of src/error.rs. Blocking models src/blocking.rs: `run` and its callers over a
-- record of the endpoint's operations, where `wait` stands for all that others do meanwhile. `run`
-- takes fuel, one unit for each round, and `none` is an operation that still waits; under a deadline,
-- `run-returns` gives the rounds that are enough. Sender models src/mpsc/sender.rs on the lane that
-- the receiver keeps, under `Deferred`, and fills the endpoint: each try, each second look and each
-- wait is a step, after which the other threads have their turn, and the clock reads the steps so far.
--
-- Receiver models src/mpsc/receiver.rs with registry.rs and lane_control.rs beside it, and src/ready.rs:
-- `Receiver.Defs` the state with what it shares, `Index` the ready bits, `Collect` the registry side,
-- `Receive` the nonblocking receives, `Control` lane control, `Register` the registration of a sender,
-- `Senders` the other acts of senders on the shared state, `Run` a channel's life; the others hold proofs about the rotation and the slots. A receiver's
-- operation is one step, and the senders act between operations, on lanes adopted or not. `Build` says whether a build has overflow checks: with them, a poll counter
-- that goes below zero is a `fault`, and without them, as in `release`, it wraps. The loops over the bits of a word have as many rounds as the word has bits. The receive
-- loops take fuel, and `none` is a loop that is not through; `try_recv-returns` gives the rounds that
-- are enough.
--
-- The receiver's bulk and blocking receives and its `Drop`, the mpmc channel itself and the
-- asynchronous operations are not modelled.
--
-- Each operation of an endpoint is one atomic step of an interleaving, under sequential
-- consistency. Release and acquire orderings, padding and allocation are not modelled.
pub mod Base
pub mod Yring
pub mod Lane
pub mod Registry
pub mod Teardown
pub mod WorkQueue
pub mod Wait
pub mod Config
pub mod Error
pub mod Blocking
pub mod Sender
pub mod Receiver
