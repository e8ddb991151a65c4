-- ===== src/Tests/Handles.antt =====
-- The mutex and condition functions, on the machine of Tests.
use libcthreads.Common.{arith}
use libcthreads.Queue.Others.{Act}
use libcthreads.Handles.{
  Initializes, initialize-Initialized, Frees, free-Freed, Signals, Locks, calls-Answered,
}
use libcthreads.Tests.{machine, full_queue, state_of}

initialize-Initialized_example : Initializes (machine Act.pops) (state_of full_queue)
initialize-Initialized_example = initialize-Initialized (machine Act.pops) (state_of full_queue)

free-Freed_example : Frees (machine Act.pops) 100 (state_of full_queue)
free-Freed_example = free-Freed (machine Act.pops) 100 (state_of full_queue) (omega arith)

calls-Answered_example :
    Signals (machine Act.pops) 200 100 (state_of full_queue)
    × Locks (machine Act.pops) 400 (state_of full_queue)
calls-Answered_example =
    calls-Answered (machine Act.pops) 200 100 400 (state_of full_queue) (omega arith) (omega arith)
      (omega arith) (omega arith)
