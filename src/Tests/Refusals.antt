-- ===== src/Tests/Refusals.antt =====
-- Calls of a queue with arguments that are missing, on the machine of Tests.
use libcthreads.Common.{refl, arith, none, some, [], ◌∷◌}
use libcthreads.Machine.{null}
use libcthreads.Machine.ErrorCode.{
  arguments_invalid_value, arguments_unsupported_value, runtime_value_missing,
}
use libcthreads.Queue.{InternalQueue}
use libcthreads.Queue.Others.{Act}
use libcthreads.Queue.Calls.{push_sorted}
use libcthreads.Queue.Refusals.{Refuses, AllRefuse, ValuesRefuse, refusals_lem}
use libcthreads.Tests.{machine, full_queue, state_of, by_number}

abbrev bare_queue : InternalQueue
bare_queue = record full_queue { values_array = none }

refusals_lem_example :
    AllRefuse
      (machine Act.pops)
      arguments_invalid_value
      (state_of full_queue)
      2
      null
      7
      (some by_number)
      2
    × AllRefuse
        (machine Act.pops)
        runtime_value_missing
        (state_of bare_queue)
        2
        1
        7
        (some by_number)
        2
    × ValuesRefuse (machine Act.pops) (state_of full_queue) 2 1 7 (some by_number) 2
    × Refuses
        (machine Act.pops)
        arguments_unsupported_value
        (state_of full_queue)
        (push_sorted (machine Act.pops) 2 1 7 (some by_number) 2)
refusals_lem_example =
    refusals_lem (machine Act.pops) 2 1 7 by_number 2 (9 ∷ 5 ∷ []) (state_of full_queue)
      (state_of bare_queue) (omega arith) (omega arith) refl refl (ground arith)
