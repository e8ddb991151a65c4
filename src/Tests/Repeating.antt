-- ===== src/Tests/Repeating.antt =====
-- A repeating thread, on a machine on which nothing fails.
use libcthreads.Common.{ℕ, ◌+◌, ◌≡◌, refl, arith, some, List, ℤ, pos, [], ◌∷◌, length}
use libcthreads.Machine.{null, Pointer, Platform, State, M, success}
use libcthreads.Machine.Exec.{done}
use libcthreads.Machine.Post.{Post}
use libcthreads.Pool.{status_exit}
use libcthreads.RepeatingThread.{InternalRepeatingThread, callback_function_helper, push}
use libcthreads.RepeatingThread.Lifetime.{create, join}
use libcthreads.RepeatingThread.Created.{RepeatingCreated, create-RepeatingCreated}
use libcthreads.RepeatingThread.Serves.{Call, logged, Serves-refl, fold}
use libcthreads.RepeatingThread.Served.{helper-Served}
use libcthreads.RepeatingThread.Exits.{repeated, helper_ends}
use libcthreads.RepeatingThread.Laws.{Added, push-Added}
use libcthreads.RepeatingThread.Joined.{Ended, repeating_join-Ended}
use libcthreads.Tests.Machines.{plain}

abbrev machine : Platform ℕ InternalRepeatingThread
machine = plain (λ w. 1) (λ w. 0)

-- Two tasks are left, and the thread is to exit.
abbrev thread : InternalRepeatingThread
thread = record {
  thread = 7;
  callback_function = 20;
  callback_function_arguments = 30;
  callback_function_result = pos 0;
  condition_mutex = 100;
  status_condition = 200;
  status = 1;
  active_tasks = 2;
  total_tasks = 5;
}

abbrev state : State ℕ InternalRepeatingThread
state = record { world = 0; object = thread; errors = [] }

-- A world that holds the calls of the callback function.
abbrev logging : Platform (List Call) InternalRepeatingThread
logging = plain (λ w. w) (λ w. w)

abbrev logging_state : State (List Call) InternalRepeatingThread
logging_state = record { world = []; object = thread; errors = [] }

abbrev logged_run : Pointer → Pointer → M (List Call) InternalRepeatingThread ℤ
logged_run f a s = done (success, record s { world = (f, a, success) ∷ s.world })

helper-Served_example :
    Post
      (Unit {0})
      (λ r u.
        (rs : List ℤ) × (r ≡ some (400, fold success rs))
        × (u.world ≡ logged 20 30 rs [])
        × (length rs + u.object.active_tasks + 5 ≡ 2 + u.object.total_tasks)
        × (u.object.status ≡ status_exit))
      (callback_function_helper logging logged_run 3 3 400 logging_state)
helper-Served_example =
    helper-Served {calls = λ w. w}
      (record {
        lock_serves = λ m w t. Serves-refl (record { object = t; calls = w });
        wait_serves = λ c m w t. Serves-refl (record { object = t; calls = w });
        unlock_calls = λ m w. refl;
        run_serves =
            λ f a s. Serves-refl (record { object = s.object; calls = (f, a, success) ∷ s.world });
      })
      3 3 400 logging_state (omega arith) (omega arith) (omega arith, omega arith)

helper_ends_example :
    Post ⊥
      (λ r u.
        (r ≡ some (400, repeated success 2 success))
        × (u.object.active_tasks ≡ 0)
        × (length u.world ≡ 2 + 0))
      (callback_function_helper logging logged_run 2 1 400 logging_state)
helper_ends_example =
    helper_ends {calls = length}
      (record {
        lock_alone = λ m w t. (refl, refl);
        unlock_calls = λ m w. refl;
        run_alone = λ s. (refl, refl, refl);
      })
      0 0 400 logging_state (omega arith) (omega arith) (omega arith) refl

push-Added_example : Post ⊥ (Added machine state) (push machine 400 state)
push-Added_example =
    push-Added machine 400 state (omega arith) (omega arith)
      ((omega arith, omega arith), omega arith, omega arith)

repeating_join-Ended_example : Post ⊥ (Ended machine 400 state) (join machine (some 400) state)
repeating_join-Ended_example =
    repeating_join-Ended machine 400 state (omega arith) (omega arith) (omega arith)
      (omega arith, omega arith) (λ t w handles. handles)

create-RepeatingCreated_example :
    Post ⊥ (RepeatingCreated machine 20 30 0) (create machine (some null) 0 20 30 state)
create-RepeatingCreated_example = create-RepeatingCreated machine 20 30 0 state (omega arith)
