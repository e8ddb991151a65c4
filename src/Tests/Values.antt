-- ===== src/Tests/Values.antt =====
-- The statements on a queue's values and its lifetime, on concrete queues.
use libcthreads.Common.{ℕ, List, suc, ◌≡◌, refl, arith, some, [], ◌∷◌, ◌++◌, pos, true}
use libcthreads.Machine.{success}
use libcthreads.Machine.Post.{Post}
use libcthreads.Queue.Ring.{insert_sorted}
use libcthreads.Queue.Valid.{contents}
use libcthreads.Queue.Insert.{Inserts}
use libcthreads.Common.{none}
use libcthreads.Queue.Order.{Placement}
use libcthreads.Queue.Ranked.{by_rank, PlacedWell, insert_sorted-PlacedWell}
use libcthreads.Queue.History.{all_given, all_taken, acts-fifo}
use libcthreads.Queue.Others.{Act, acts}
use libcthreads.Queue.Lifetime.{initialize, free}
use libcthreads.Queue.Created.{Created, initialize-Created}
use libcthreads.Queue.Freed.{Release}
use libcthreads.Queue.Disposal.{Disposed, free-Disposed}
use libcthreads.Machine.{call}
use libcthreads.Tests.{
  machine, full_queue, roomy_queue, state_of, full_queue-Ready, roomy_queue-Ready,
}

initialize-Created_example :
    Post ⊥
      (Created (machine Act.pops) 3 (omega arith))
      (initialize (machine Act.pops) (some 0) (pos 3) (state_of full_queue))
initialize-Created_example =
    initialize-Created (machine Act.pops) 3 (omega arith) (state_of full_queue) (omega arith)

-- A free function of values that counts its calls.
abbrev counting : Release ℕ
counting v w = ((success, 0), suc w)

free-Disposed_example :
    Post ⊥
      (Disposed (machine Act.pops) counting 64 (9 ∷ 5 ∷ []) 32 (state_of full_queue))
      (free (machine Act.pops) 64 (some (λ v. call (counting v))) (some 32) (state_of full_queue))
free-Disposed_example =
    free-Disposed (machine Act.pops) counting 64 32 (9 ∷ 5 ∷ []) (state_of full_queue) (omega arith)
      full_queue-Ready.handles refl refl

insert_sorted-PlacedWell_example :
    (r : Placement) × Inserts roomy_queue (insert_sorted (by_rank (λ x. x)) true 7 roomy_queue) r
    × PlacedWell (λ x. x) true 7 none (contents roomy_queue) r
insert_sorted-PlacedWell_example =
    insert_sorted-PlacedWell (λ x. x) roomy_queue true 7 roomy_queue-Ready.valid (omega arith)
      (tt, (omega arith, tt))

abbrev two_pushes : List Act
two_pushes = Act.pushes 7 ∷ Act.pops ∷ Act.pushes 8 ∷ Act.pops ∷ Act.pops ∷ []

acts-fifo_example :
    contents roomy_queue ++ all_given roomy_queue two_pushes
    ≡ all_taken roomy_queue two_pushes ++ contents (acts roomy_queue two_pushes)
acts-fifo_example = acts-fifo roomy_queue two_pushes roomy_queue-Ready.valid tt
