-- ===== src/Lib.antt =====
-- uringy: a concurrency runtime on io_uring. Fibers run one at a time on a thread; they park until a
-- completion of the kernel or another fiber wakes them. On the runtime stand a channel, a circular
-- buffer, files, an HTTP server and the protocol of NATS.
--
-- The files, and the code that they are about:
-- Common: lists, options, results, numbers, texts and bits that the models share.
-- Runtime: src/runtime/mod.rs. State has the slab of fibers, the ready queue, the pool of stacks and
-- the unions on the stacks (RuntimeState, FiberState, JoinHandleState). Scheduler has process_io,
-- park, yield_now and wakers, with process_completed of src/runtime/syscall.rs. Cancel has cancel and
-- is_cancelled. Fibers has create_fiber, start, spawn and the trampolines. Join has join, read_output
-- and the drop of a handle. Calls has syscall and read_syscall_result, and sleep of src/time.rs. Every
-- operation passes the runtime from call to call, and a panic is a value. A function that parks is cut
-- there into what runs before and what runs when the fiber is resumed. The slab is a parameter (Slab)
-- with its documented laws. process_io takes the completion queue as each of its rounds finds it, and
-- runs out of rounds only while it waits for the kernel. cancel has fuel for the depth of its
-- recursion; any number above the depth of the tree of children is enough, and more changes nothing
-- (Cancel.Depth, Fibers.Depth). Safety has the invariant of the runtime: Steps has what the running
-- fiber can do as a step relation, and Reach that every runtime reached by steps is sound. The steps
-- are guarded: wakers, completions and cancel are used on fibers that have not left, a completed fiber
-- is joined or its handle dropped only once it has left, and a fiber ends only when nothing is left to
-- run or to join it again. Join and Sync show how the code gets round them. Stack is
-- src/runtime/stack.rs with mmap, mprotect and munmap as parameters, and the drop of RuntimeState;
-- ThreadLocal is src/runtime/tls.rs.
-- CircularBuffer: src/circular_buffer.rs. Memory has the kernel's mappings as a parameter, Window the
-- two copies of the file, Refine the queue that a buffer stands for, Length the rounding of the length,
-- Mapping the set-up, Wrap the limits.
-- Errors: src/lib.rs.
-- Sync: src/sync/channel.rs. Channel has the shared state and the operations of both ends, with the
-- fibers that a call schedules as part of what it gives; Runs has sequences of calls.
-- Nats: src/ecosystem/nats/proto.rs. Nom has the parsers of the crate nom as a parameter, Proto encode
-- and decode, Wire the documented format, Fields, Decode and Encode the proofs.
-- Http: src/ecosystem/http. Payload has payload.rs and mime.rs, Headers the lookup of headers, Router
-- the responder of mod.rs and server/route.rs with the crate matchit as a parameter, Uri and Server
-- the connections of server/mod.rs with httparse, the writer and the date as parameters, Reader its
-- reader over the circular buffer, Serve its serve over the runtime, with what other fibers do between
-- two connections as a part of each connection, and FakeClient server/fake_client.rs over the router
-- and the channel.
-- Kernel: runtime::syscall as the callers see it. The kernel is a parameter that takes submission queue
-- entries; a cancelled fiber submits none.
-- Fs: src/fs.rs. The options and sizes, and in Calls the operations of a file over Kernel;
-- Whole has the functions on whole files, with what the standard library does with an open file as a
-- parameter.
-- Net: src/net. Address has socket addresses and their bytes, Tcp listeners and streams over Kernel.
--
-- The servers, channels and files use the runtime through park, wakers and syscall: a channel gives the
-- fibers to schedule, and a connection takes the data as its fiber finds it when it is woken.
--
-- Not modelled: src/runtime/context_switch.rs, which is assembly; the ring of io_uring but for the filter
-- of completions; the set-up of the buffer and of the reader at the start of handle_connection, which are
-- modelled apart in CircularBuffer and Http.Reader; the macros, which generate code.
pub mod Common
pub mod CircularBuffer
pub mod Errors
pub mod Nats
pub mod Net
pub mod Kernel
pub mod Fs
pub mod Http
pub mod Runtime
pub mod Sync
