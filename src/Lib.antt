-- ===== src/Lib.antt =====
-- NetworkCopy Speed Edition copies folders between two computers. A Manager keeps a queue of
-- transfers and drives an Agent on each computer through framed messages; within a transfer, files that
-- are cut into content-defined chunks are sent in generations, and a rolling catalog of the chunks of
-- the files that are already there serves as the basis of those that follow. A journal at the receiver
-- says what an interrupted transfer has completed, and a large file is cut into stripes, one a stream.
--
-- Which module models which part (paths from the repository's root):
--   Common        `Result` with `?` as a bind, `io::Error`, `u64::checked_add`, lists.
--   Wire          Little and big endian numbers, `read_exact` and slices of a buffer.
--   Manager       src/management_queue.rs (Manager.Queue and its children: TransferQueue, one function
--                 a public method, and QueuedTransferRequest), the queue's part of
--                 src/management_active_binding.rs (Manager.Queue.Binding), src/management_route.rs
--                 (Manager.Route), src/management_protocol.rs (Manager.Protocol), and what the queue
--                 takes from std: `str` (Manager.Text) and `SocketAddr` (Manager.Address).
--   Manager.Jobs  src/management_jobs.rs: the registry of an agent's jobs, one function a critical section;
--                 Steps is the threads over it as a step relation, each of whose constructors is what a
--                 call does between two accesses, and Invariant, Ids, Safety, Liveness and Cancel have the
--                 proofs.
--   Cdc.Catalog   src/session_cdc_catalog.rs: Types, Entries (the eviction loop that planner and
--                 validator share), Planner, Validator; the proofs are in Bounds (the catalog stays
--                 within its limit), Agreement (the validator follows the planner), Planning (the loop
--                 of `plan`), Sorting and Plans. Basis is CatalogBasis, whose proofs are in Replay,
--                 Published and Bases.
--   Resume        src/resume_state.rs: Sets (`BTreeSet` as an ascending list), Journal (ResumeStripe,
--                 ResumeJournal, its methods, `write_to`, `read_path` and `load_existing`, the last two on
--                 the bytes of the file); the proofs are in Marks, Model, RoundTrip, Reading and Loading.
--   Transfer.Stripes  src/striped_file.rs: stripe_range and the handshake of a stream; the proofs are in
--                 Division, Cover, Inversion, Handshake and Accepted.
--   Transfer.Manifest  src/manifest_scan.rs: the entries of a manifest and the class of a file.
--   Transfer.Plan  src/multistream_copy.rs: build_transfer_plan and the functions that it calls, one
--                 definition a loop. Lanes and Measure are what one assignment does, Hits and Coverage
--                 follow a byte of a file, Even and Balance the lanes' bytes, Packs the tiny packs, and
--                 Adds, Books and Total show that planning succeeds.
--   Transfer.Offer  src/multistream_copy.rs: apply_resume_offer and the functions that it calls. Left is
--                 what every step leaves, Applied and Gone follow a byte through the whole of it.
--   Transfer.Candidates  src/multistream_copy.rs: build_fresh_generation_plan_with_limits and the candidates
--                 that it hands to the planner of Cdc.Catalog, with their proofs in Ascending.
--   Transfer.Fresh  src/multistream_copy.rs: apply_fresh_resume_prefix, with its proofs in Prefix.
--   Transfer.Execution  src/multistream_copy.rs: build_fresh_generation_execution and
--                 validate_fresh_generation_execution, with their proofs in Sums and Parts.
--
-- How the code is read. A method that changes its object is a function that returns the new object. An
-- error of the queue leaves the queue as it was, since the source returns before it writes. A reader
-- is a function from the bytes that are still to come to a value and the bytes behind it, and a writer
-- returns the bytes that it writes. Integers are natural numbers, with the bounds of the source's
-- checked operations written out; `usize` is of 64 bits, so that the conversions between it and u64
-- cannot fail. Where an error stops the replay of a basis, the half-changed basis is dropped, as the
-- source does. A message is the constant part of the source's, without the numbers that it prints.
-- Where the planner and the validator run the same loop with different messages, the messages are a
-- parameter of one definition. `sort_unstable_by_key` is an insertion sort by the file id; ids are
-- distinct where planning succeeds, so that every sort gives the same list. The sort of the medium
-- files by their size is one too, which keeps files of one size in their order; the source leaves that
-- order open. A loop recurses on its list or on its count, and none has fuel. Threads over one mutex
-- are steps in any order, each of them a critical section or what lies between two; a worker's last
-- step is its call of finish.
--
-- Not modelled: sockets, the work of the threads, the file system, the Windows API, the front ends,
-- the benchmarks, the release updater and the vendored windowing library, which are calls of code
-- outside the repository or glue; the codecs of snapshots, jobs and persisted queues, the progress of
-- a job, workers that panic or never return and the poisoned locks behind them, TransferQueue::items_mut,
-- which only a decoder uses, the replacement of a journal's file, and the lanes of the multistream engine at work, which
-- are threads, sockets and files.
pub mod Common
pub mod Wire
pub mod Manager
pub mod Cdc
pub mod Resume
pub mod Transfer
