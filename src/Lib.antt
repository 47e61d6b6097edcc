-- ===== src/Lib.antt =====
-- A small operating system kernel for RISC-V in C: the parts of its core that keep state, as
-- functions from the state before a call to the state after it. A call runs under the locks that
-- the source takes, so it is one step. Code that a failed `kassert` stops gives `none`; error
-- returns are values of `Rc`.
--
-- Parts, files and code:
--
--   Klib.Bitops (klib/bitops.c, include/klib/bitops.h): bit searches in a word, `bitops_ffs64` and its
--   kin, and in an array of words; set, clear, test. The searches run over 2 ^ rounds bits.
--   Klib.Queue (include/klib/queue.h): `queue_add_sort`, over the nodes of a queue as a list.
--   Klib.Ring (klib/list.c, queue.c, include/klib/list.h): rings of nodes over a store of pointers; Klib.Ring.Spec
--   is a queue as a list, Klib.Ring.Refine compares the two. The parts below have their queues as lists.
--   Klib.Atomic (klib/atomic.c, refcount.c): counters of 32 bits. A loop is given the words that its
--   attempts find; `hal_atomic` operations are single steps on the word.
--   Klib.Memory (klib/memmove.c, memcmp.c, memchr.c): bytes of a memory that is a function.
--   Klib.Strings (klib/strncmp.c, strstr.c, strncpy.c, strcpy.c): strings as lists of characters.
--   Page.Frame, Page.Pool (include/kern/page-pframe.h, page-pfdb.h, kern/page-pfdb.c): page frames and the
--   buddy pool of one memory area; a page is named by its index in the array. Page.Tiles states the
--   invariant: free blocks, blocks handed out and reserved pages tile the array. Page.Halves, Page.Split,
--   Page.FreeBuddy, Page.Join, Page.Merge are about the loops, Page.HandOut, Page.Dequeue, Page.GiveBack,
--   Page.Enqueue, Page.Cycle about the operations.
--   Page.Lookup (kern/page-pfdb.c): the order of the areas and the search for a page's frame; RB_FIND of
--   include/klib/rbtree.h is a parameter.
--   Page.Database (kern/page-pfdb.c): all areas in the order of the tree, users of a page, statistics.
--   Slab (kern/page-slab.c, include/kern/page-slab.h): a cache with its slabs in three queues. Slab.Invariant
--   states what is consistent; Slab.Taking, Slab.Take, Slab.Grow and Slab.Alloc are about allocation,
--   Slab.Held, Slab.Free and Slab.Reap about release, giving back and destruction. Slab.Races has calls
--   that overlap.
--   Irq (kern/irq.c, include/kern/irq-if.h): interrupt lines, handlers and controllers. Irq.Handle serves
--   interrupts: its Borrow and Steps are equations, Served says what happens and Priority in which order.
--   Irq.Register registers and takes back: Search, Prepared, Registered and Unlinked, Unregistered are
--   about handlers, Ranges and Ctrlrs about controllers.
--   Irq.Reached has the states after any calls. RB_INSERT of include/klib/rbtree.h and what controllers
--   and handlers answer are parameters.
--   Sched (kern/sched-queue.c, kern/thr-preempt.c, `thr_ref_inc` and `thr_ref_dec` of kern/thr-thread.c):
--   the ready queue of 256 priorities with its bitmap, and `sched_schedule` on one processor. Sched.Resume
--   is about `switch_to`, which takes up the stack of a thread that was switched out, or starts a new one.
--   Sched.Ready states the invariant. The queue's bitmap is four words of Klib.Bitops.
--   Wait (kern/wqueue.c, kern/mutex.c): waking over Sched; Wait.Exclusion has the steps of the threads of
--   a mutex, in which the loop of `mutex_lock` is the steps `acquire` and `sleep`.
--   Timer (kern/timer.c, include/kern/timer.h): wall time and callouts, whose queue is kept by Klib.Queue.
--   Prelude: lists, words, results and tables that the parts share.
--
-- Bounds and fuel: the loops of the pool take the rounds left to the highest order, 11, as fuel, so
-- they end as the code does. The loop of `slab_kmem_cache_destroy` takes two rounds of fuel, since
-- the first one empties the free queue. `invoke_callout` takes fuel because a callout may add
-- another, which may be due at once. Counters of obj_cnt_type wrap at 2 ^ 64 in the pool and in the
-- statistics. An index that the source keeps in an int is cut to 32 bits with its sign extended
-- (`int_index`), so theorems that take a block of a pool ask for at most 2 ^ 31 pages; the other
-- pools may have up to 2 ^ 64. The searches in an array of words count with an unsigned int that
-- wraps; their fuel is the number of elements, which is enough while an unsigned int holds it, and
-- their theorems ask for that. The seconds of the clock and the reference counts of pages, threads
-- and interrupt lines are natural numbers: they do not run out. Klib.Atomic has the counters as
-- words of 32 bits.
--
-- Not modelled: the locks themselves and, but for Klib.Atomic and Slab.Races, what other processors
-- do inside a call; the tree of areas, whose traversal is given as a list; allocation of callout
-- entries, which is a parameter; what a callout does, which is a parameter; what an interrupt
-- handler does besides its answer; the processor's acceptance of interrupts, but for Irq, where it
-- is a field that `invoke_irq_handler` asserts to be off; sizes, addresses, colouring, constructors
-- and destructors of the objects of a slab; the stacks that `thr_thread_switch` exchanges; output
-- and assembly.
pub mod Prelude
pub mod Irq
pub mod Klib
pub mod Page
pub mod Sched
pub mod Slab
pub mod Timer
pub mod Wait
