-- ===== src/Lib.antt =====
-- libcthreads: a C library of multi-threading helpers over POSIX threads (or the Windows API).
--
-- The parts of the program, in libcthreads/. Mutexes (libcthreads_mutex.c), conditions
-- (libcthreads_condition.c), locks (libcthreads_lock.c) and read/write locks
-- (libcthreads_read_write_lock.c) wrap the POSIX functions and report errors through libcerror.
-- Threads (libcthreads_thread.c) and their attributes (libcthreads_thread_attributes.c) run one
-- callback function. Queues (libcthreads_queue.c) are bounded FIFO queues that threads share: a ring
-- of pointers, a mutex and two conditions. Thread pools (libcthreads_thread_pool.c) use the same ring
-- and the same waits, and their threads pop values off it and run a callback function on each.
-- Repeating threads (libcthreads_repeating_thread.c) run a callback function once for each push. The
-- macros of common/byte_stream.h copy numbers out of and into streams of bytes and rotate bits.
--
-- What is modelled: all these, each function of them, as built with HAVE_PTHREAD_H and without
-- WINAPI.
--   Common, Common/*      native arithmetic tests, `int` values, C arrays as lists
--   ByteStream/Copy, Rotate  the copy and the rotation macros
--   ByteStream/Bits, Value, RoundTrip, Turned, Rotations  `|` and `&` as arithmetic; what the macros
--                         compute
--   Machine               the world, the shared object, the reports, and `Platform`: memory and
--                         POSIX threads as a parameter of all definitions
--   Machine/Post, Answer  postconditions of calls; how a wrapper reports an answer
--   Handle, Handle/Laws   the statements that the wrappers' initialize, free and lock functions share
--   Handle/Members        how a structure makes and frees the handles that it has as members
--   Mutex, Condition, Lock, ReadWriteLock  the functions of these wrappers; Laws below each, their
--                         results; Handles, the four together
--   ThreadAttributes      libcthreads_thread_attributes_initialize, free
--   Joining               what the join functions do with the answer of pthread_join
--   Thread, Thread/Laws   libcthreads_thread_create, join and the start function; their results
--   Queue                 struct libcthreads_internal_queue (libcthreads_queue.h)
--   Queue/Ring            what the functions do to the ring while they hold the mutex
--   Queue/Calls           libcthreads_queue_empty, try_pop, pop, try_push, push, push_sorted
--   Queue/Lifetime        libcthreads_queue_initialize and free
--   Queue/Window, Valid   the part of the ring in use as a list; the representation invariant
--   Queue/Fifo            push and pop on that list
--   Queue/Order, Search, Room, Place, Insert  push_sorted on that list
--   Queue/Others, Environment  other threads: sequences of critical sections, and what is assumed
--                         of the POSIX functions
--   Queue/Occurrences, History  the values that pass through a queue in such a sequence
--   Queue/Abstract, View   a critical section as an operation on lists; the quotient of the rings by the
--                         values that they hold
--   Queue/Sleeping        threads that run, sleep on a condition or are away
--   Queue/Waiters         threads that sleep on the two conditions and are woken, as a step relation;
--                         what a broadcast does is a parameter
--   Queue/Waiters/Wakeups  who can be asleep in the states that the steps reach
--   Queue/Steps, Results  what each part of a call does
--   Queue/Push, Pop, Sorted, Created, Freed, Disposal  what each function does
--   Queue/Ranked          push_sorted with a comparison of ranks
--   Queue/Refusals        the guards at the start of the calls
--   Queue/Total           the calls that wait, where nothing fails and others make progress
--   Queue/Teardown        the conditions and the mutex of a ring, freed
--   Pool                  struct libcthreads_internal_thread_pool: the members that a queue has are
--                         the machine's object, the others stand in the world
--   Pool/Calls            libcthreads_internal_thread_pool_pop, libcthreads_thread_pool_push,
--                         push_sorted, and the start function of the threads with its loop
--   Pool/Lifetime         libcthreads_thread_pool_join
--   Pool/Create           libcthreads_thread_pool_create
--   Pool/Abandon, Created, Pop, Push, Work, Drain, Joins, Join  what these do
--   Pool/System           the threads of one pool, its callers and the one that joins it, as a step
--                         relation: one step for each critical section, callback and exit
--   Pool/System/Refines   the code of pop, push and push_sorted under the mutex against these steps
--   Pool/System/Held, Conserves, Drains, Ends, Finishes  where the values are in each state that the
--                         steps reach, and how the threads end
--   Pool/Sleepers         the same threads with the two conditions on which they sleep, and the
--                         broadcast of join, as a step relation
--   Pool/Sleepers/Awake   who can be asleep in the states that the steps reach
--   RepeatingThread       struct libcthreads_internal_repeating_thread, push, the start function
--   RepeatingThread/Lifetime  libcthreads_repeating_thread_create and join
--   RepeatingThread/Serves, Fetches, Served  the start function while other threads push
--   RepeatingThread/Alone, Exits  the start function with no other thread at work
--   RepeatingThread/Created, Laws, Joined  create, push and join
--   Tests, Tests/*        a machine, queues, and the theorems applied to them
--
-- How it corresponds to the code. A function takes the state (world, shared object, reports) and
-- ends with its result and the state, or in a fault (an access through NULL or outside the array),
-- or waiting. A pointer is a number, 0 is NULL. `T **` is an option of the pointer's value, and the
-- value left there is returned beside the result. A call that can block (pthread_mutex_lock,
-- pthread_cond_wait) may change the shared object: other threads run meanwhile. The theorems on
-- calls assume that others change a queue only by whole critical sections, that a lock and a wait
-- that succeed leave the caller with the mutex, and that an unlock gives it up, and let any of
-- these calls fail with the failure shown as `F`. `intptr_t **value` of a pop is returned as an
-- option. Functions of the program (comparisons, callbacks, free functions of values) are
-- parameters. What is assumed of the calls beyond that is a record of laws beside the theorems:
-- `Steady` (Pool/Drain) and `Stays` (Pool/Joins) for the join of a pool, `Starts` (Pool/Abandon) for
-- its creation, `Paces` (Pool/Work) for how long its threads work, `Beside` (RepeatingThread/Serves)
-- and `Alone` (RepeatingThread/Alone) for the threads beside a repeating thread. These two are about
-- a log in the world of the calls of the callback function, or their number.
--
-- Bounds and fuel. The waits `while( test ) wait` run on a number of rounds, an argument; `Ends`
-- says that they are enough, and for `Unit` in place of `⊥` nothing is said of the case in which
-- they are not. The loop of push_sorted that makes room has as many rounds as the array has slots
-- and one more: each round takes the free slot one place back. The `int` members are natural
-- numbers within the size of the array, which is itself an `int`. Sizes are those of a 64-bit
-- platform. The loop of a pool's thread and that of a repeating thread run on rounds as well. The
-- `int` counters of a repeating thread are natural numbers, and an increment past INT_MAX is a fault.
--
-- A stream of bytes is a list of numbers below 256, and a variable of w bits wraps around at 2 ^ w.
-- The macros have no types of their own: a 16, 24, 32, 48 or 64-bit macro is taken with an unsigned
-- variable of 16, 32, 32, 64 or 64 bits. A rotation macro gives what C computes, an `int` for 8 and
-- 16 bits, which is cut to the width only where it is stored.
--
-- Not modelled: the Windows branches, the texts of error messages, allocation of memory for the
-- reports, libcthreads_error.c and libcthreads_support.c, which only forward to libcerror and return
-- the version, the memory
-- model below a critical section, the enumerations of include/libcthreads/error.h, and the other
-- files of common/, which give functions of the C library other names.
pub mod Common
pub mod ByteStream
pub mod Machine
pub mod Handle
pub mod Lock
pub mod ReadWriteLock
pub mod Mutex
pub mod Condition
pub mod Handles
pub mod ThreadAttributes
pub mod Joining
pub mod Thread
pub mod Queue
pub mod Pool
pub mod RepeatingThread
pub mod Tests
