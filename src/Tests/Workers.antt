-- ===== src/Tests/Workers.antt =====
-- Threads, on a machine on which nothing fails.
use libcthreads.Common.{ℕ, ◌≡◌, refl, arith, some, ℤ, pos, []}
use libcthreads.Machine.{Pointer, null, Platform, State, M, success, return}
use libcthreads.Machine.Exec.{done}
use libcthreads.Machine.Post.{Post}
use libcthreads.Thread.{InternalThread, callback_function_helper, join}
use libcthreads.Thread.Laws.{Joined, join-Joined, outcome, join-helper}
use libcthreads.Tests.Machines.{plain}

abbrev machine : Platform ℕ InternalThread
machine = plain (λ w. 1) (λ w. 0)

-- A thread with a callback function.
abbrev thread : InternalThread
thread = record { thread = 7; callback_function = 20; callback_function_arguments = 30 }

abbrev state : State ℕ InternalThread
state = record { world = 0; object = thread; errors = [] }

-- The callback function returns 1.
abbrev run : Pointer → Pointer → M ℕ InternalThread ℤ
run f a = return success

join-Joined_example : Post ⊥ (Joined machine 100 state) (join machine (some 100) state)
join-Joined_example = join-Joined machine 100 state (omega arith) (omega arith)

-- The start function hands the result out at the address that the join answers with.
abbrev answering : Platform ℕ InternalThread
answering = record machine { memory_allocate = λ size w. (512, w) }

helper_runs : callback_function_helper answering run 100 state ≡ done (some (512, pos 1), state)
unfolding callback_function_helper
helper_runs = refl

join-helper_example :
    Post ⊥ (λ r u. r ≡ (outcome 512 success, some null)) (join answering (some 100) state)
join-helper_example =
    join-helper answering run success 100 100 state state state (some (512, pos 1)) 0 thread
      (omega arith) (omega arith) refl helper_runs refl (omega arith) (omega arith)
