-- ===== src/Lib.antt =====
-- Boost.Capy: I/O and execution for C++20 coroutines.
--
-- The library has three layers. Buffers (include/boost/capy/buffers.hpp and buffers/) are borrowed
-- ranges of memory and sequences of them, with a copy between sequences, slices, and a cursor that
-- consumes. Transfers (read.hpp, read_at_least.hpp, write.hpp, write_at_least.hpp) are loops that
-- call `read_some` or `write_some` of a stream with what a cursor has left; streams for tests
-- (test/) inject errors through a fuse. Execution (ex/ and src/ex/) is where suspended coroutines
-- wait and who resumes them: a strand serializes continuations on an executor, a thread pool runs
-- them on its threads, an asynchronous mutex hands itself from one coroutine to the next, an event
-- and a waker resume those who wait, and an execution context owns the services of all of them.
-- Below, a path that does not begin with src/ or include/ is under include/boost/capy.
--
-- Base            shared names, tests, lists over native numbers.
-- Buffers         buffers.hpp, buffers/front.hpp: `Buffer` is `mutable_buffer` and `const_buffer`, a
--                 sequence is a list; Bytes lists the addresses of its bytes.
-- Buffers.Copy    buffers/buffer_copy.hpp over a `Memory`, a function from addresses to bytes; a
--                 `std::memcpy` of ranges that overlap is undefined, and so is a copy with one.
--                 Refine compares it with a copy byte by byte, Contents says what memory holds.
-- Buffers.Slice   detail/slice_of.hpp, buffers/buffer_slice.hpp, buffers/consuming_buffers.hpp.
-- Buffers.Array   detail/buffer_array.hpp.
-- Error           error.hpp, cond.hpp, and error codes with the absent code as `none`; Conditions is
--                 src/error.cpp and src/cond.cpp.
-- Transfer        the four loops; Transport is the contract of the stream concepts as a record of a
--                 call and its laws, which the Contract modules of both test streams fill.
-- Testing.Fuse    test/fuse.hpp; Armed has the rounds, for a test function as a tree of its calls.
-- Testing         test/read_stream.hpp and test/write_stream.hpp: ReadStream and WriteStream, each
--                 over a memory.
-- Testing.Stream  test/stream.hpp: the two ends, `false` and `true`, and the awaitables of their
--                 reads; System has the users of both ends.
-- Exec.Strand     src/ex/detail/strand_service.cpp, strand_impl.hpp and strand_queue.hpp: the
--                 functions of the service; System interleaves their callers.
-- Exec.Queue      the linked queue of src/ex/thread_pool.cpp; Refine compares it with a list.
-- Exec.Pool       the rest of src/ex/thread_pool.cpp, section by section under its mutex; System
--                 interleaves the sections, the workers and the destructor.
-- Exec.Guard      ex/work_guard.hpp.
-- Exec.Services   ex/execution_context.hpp and src/ex/execution_context.cpp: the services of a
--                 context, over the code of their classes; System interleaves those who register.
-- Sync.Mutex      ex/async_mutex.hpp: the state of the mutex and of all awaiters; an executor is a
--                 function that says what becomes of each continuation; System has the coroutines
--                 that lock, with their stop tokens and their executors.
-- Sync.Event      ex/async_event.hpp: the state of the event and of all awaiters, with the list of
--                 the continuations posted; System has the turns of `set` and of the destructor,
--                 with the calls of coroutines and stop tokens between them.
-- Sync.Waker      ex/async_waker.hpp, cut at each access of its atomic state; System interleaves the
--                 waiter, the calls of `wake`, the stop callback and the destructor.
-- Frames          ex/recycling_memory_resource.hpp and src/ex/recycling_memory_resource.cpp:
--                 Recycling is the resource, a block is a number, and `::operator new` is the block
--                 that it returned; System has the threads.
-- Examples        the theorems at concrete inputs.
--
-- A `std::size_t` has 64 bits, and its wrap-around is written out where the code adds or
-- subtracts without a bound of its own. Pointers are numbers and so are coroutines. A section under
-- a std::mutex is one step, as is a call that the code documents as single-threaded; orderings of
-- steps are explicit relations, so that a theorem on reachable states is about every schedule.
-- Weak memory orders are not modelled: an atomic access is a step.
--
-- Loops over a list recurse on it. The loop of a transfer has as fuel one more than the bytes to be
-- moved, since each round that reports no error moves a byte; the copy has one more than the buffers
-- on both sides, since each round ends one; `unlock` has one more than the waiters, since each round
-- takes one; a phase of `armed` has three more than the calls of an unfailed run, since the failure
-- point moves by one call in each round; `destroy` of a context has the services that were added; `bit_ceil` doubles 64 times at most, which is enough for
-- the requests of at most 2^63 bytes that the theorems are about.
--
-- Not modelled: promise types and everything else that joins the compiler's coroutines to an
-- executor (task.hpp, quitter.hpp, ex/run.hpp, ex/run_async.hpp), type erasure (io/any_*.hpp,
-- ex/any_executor.hpp), when_all.hpp and when_any.hpp,
-- where frames get their resource, windows on buffer sequences, the adapters to Asio, a failing
-- `::operator new`, and exceptions of the standard library other than those that the code catches.
pub mod Base
pub mod Buffers
pub mod Error
pub mod Transfer
pub mod Testing
pub mod Exec
pub mod Sync
pub mod Frames
mod Examples
