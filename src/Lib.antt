-- ===== src/Lib.antt =====
-- CS452: a real-time kernel for the TS-7200 and the train control that runs on it. This library models
-- the DEBUG build, in which KASSERT and the IS_VALID_ macros are active: a KASSERT that fails is `none`.
--
-- How the parts fit together. User tasks run until they make a request or an interrupt comes. The main
-- loop (src/kernel/kernel.c) takes the oldest task of the highest priority from the ready queue, lets it
-- run, and hands its request to a handler; the handler changes task descriptors, queues and memory, and
-- puts tasks back into the ready queue. Each part stands on the ones before it in this list:
--
-- - Base: what the files share: Boolean tests, lists and bits on the native numbers, 32-bit arithmetic.
-- - Ring: include/lib/circular_buffer.h. `Ring` is the struct, and init, push, top, pop, pop_end and get
--   are the functions that the macro makes, generic in the element type and the capacity. Ring/Inv has
--   the representation invariant, Ring/Refine the list of entries that a buffer holds, Ring/Rem the
--   operation that only the EXT_ macros have, Ring/Get the
--   indexed read.
-- - Task: include/lib/task/task.h and src/lib/task/task.c, the descriptors (a pointer to one is an index
--   into `tasks`); Task/Tracker the tracker of tids, and Task/Tracker/Alloc the pool that it keeps.
-- - TaskQueue: src/lib/task/task_queue.c, queues linked through the descriptors.
-- - ReadyQueue: src/lib/task/priority_queue.c. Levels is the abstract view, a list of tasks for each
--   priority; Push, Pop and DumbPop are the three operations against it.
-- - InterruptMatrix: src/lib/task/interrupt_matrix.c and the flag functions of
--   src/kernel/handlers/interrupt.c.
-- - Kernel: include/kernel/kernel.h, the global variables as a record. Kernel/Bytes is memory;
--   Kernel/Msg is src/kernel/handlers/msg.c; Kernel/Create is src/kernel/kernel_task.c and
--   src/kernel/handlers/create.c; Kernel/Interrupt is src/kernel/handlers/interrupt.c; Kernel/Handle is
--   src/kernel/kernel.c and src/kernel/handlers/nameserver.c: `handle` for the requests, `schedule`,
--   `initialize`, and `round` for one round of `main`. Frame and Queueing say what a handler
--   leaves alone; Schedule and Round put the ready queue and the main loop together.
-- - ClockQueue: src/lib/clockserver_queue.c, the list of waiting tasks; Order is about lists in the order
--   of ticks, Refine, Add and Pop about the links. ClockServer: src/user/clockserver.c, a request and its
--   answer as a step; Due says which tasks a tick wakes, Serve what the requests do.
-- - Track: include/lib/train/track_node.h, the nodes of a track in a memory of nodes, where a pointer is
--   an address. Reservation: src/lib/train/reservation.c, which train has which node. Region says which
--   nodes a reservation writes, Ownership and Release what that means for the trains where no other train
--   has a part of the region, and Release what happens otherwise; Search has the
--   searches and the calls that reserve or free what they find, Ends and Bounded are about the rounds that
--   the searches take, Listing and Sweep about what they find and reserve.
-- - TrackNode: src/lib/train/track_node.c, and TrackNode/Switches src/lib/train/track_switch.c, the way
--   that the switches set. Clock: src/lib/clock.c. RecencyBuffer: src/lib/recency_buffer.c. EventWindow:
--   src/lib/train/event_window.c, with the loops on fuel; Empty has the loop of `ev_wm_delete_all`, Clear the one that
--   clears keys, Queues the start and the next window.
-- - TrackData: src/lib/train/track_data.c, the table of track A; Checks and Sound say that it is as the
--   searches and the reservations need a track to be.
-- - Text: src/lib/string.c and src/lib/parse.c; Equal and Word are about texts that end with 0.
-- - TrackHeap: src/lib/train/priority_queue.c, the heap of the path search; Order is about the heap order,
--   Add and Pop about the two operations. TrainPath: src/lib/train/path_finding.c, the path of a train;
--   Follow is about moving along it; Generate is the search for a way, and `pather_path` of
--   src/lib/train/reservation.c, Edges what the search knows of the edges, Ends that it ends, Start that it leaves the first node without a
--   predecessor, and Route the
--   way that is made of it.
-- - NameServer: src/lib/nameserver_store.c and src/user/nameserver.c, again a step for each request.
--
-- Numbers. `int` and `uint32_t` are 32-bit patterns in the native numbers, with the wrap-around of each
-- operation written out; memory is bytes at 32-bit addresses, words of four bytes with the lowest first.
--
-- Loops. The copying loops recurse on the rounds that are left. The loop of `wakeall` runs on fuel, one
-- more than the number of tasks that wait, since each round takes one of them; the search of `csq_add`
-- has one more than the size of the queue, since each round passes a node. The searches over the track do
-- not mark the nodes that they have seen and stop at a distance or a sensor only; their fuel is a power of
-- three, enough on a track on which a number falls along the edges of length 0 (and, where they look for
-- sensors, every way round passes one), as on track A. An outer `none` is fuel that has run out, an
-- inner `none` an assert that fails. The loops of the heap have one round more than the index at which they
-- begin going up, and one for each place going down. The search for a way takes each of at most 144 nodes
-- from the heap, and expands it, once, and its entries come to less than 434 rounds.
--
-- Not modelled: the assembly of `activate` and of the system calls (what a task hands back to the kernel
-- is a parameter of `round`), the hardware but for the registers that the handlers read and write, the
-- three requests for statistics, the calls by which clients reach the servers, the table of track B and the
-- names of the nodes, and of the train control the estimator and the user tasks.
pub mod Base
pub mod Ring
pub mod Task
pub mod TaskQueue
pub mod ReadyQueue
pub mod InterruptMatrix
pub mod Kernel
pub mod ClockQueue
pub mod ClockServer
pub mod NameServer
pub mod Clock
pub mod EventWindow
pub mod RecencyBuffer
pub mod Reservation
pub mod Text
pub mod Track
pub mod TrackData
pub mod TrackHeap
pub mod TrackNode
pub mod TrainPath
