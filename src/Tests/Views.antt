-- ===== src/Tests/Views.antt =====
-- A queue with room for two values that holds 5 and 9, without its representation.
use mathlib.Core.Quot
use libcthreads.Common.{◌≡◌, refl, [], ◌∷◌}
use libcthreads.Queue.Others.{Act}
use libcthreads.Queue.Abstract.{act_on}
use libcthreads.Queue.View.{View, act_view, values_of, values_of-act_view}
use libcthreads.Tests.{full_queue, full_queue-Ready}

abbrev two_values : View 2
two_values = Quot.mk (full_queue, full_queue-Ready.valid, refl)

values_of-act_view_example :
    values_of 2 (act_view 2 Act.pops two_values) ≡ act_on 2 Act.pops (values_of 2 two_values)
values_of-act_view_example = values_of-act_view 2 Act.pops two_values

nine_left : values_of 2 (act_view 2 Act.pops two_values) ≡ 9 ∷ []
unfolding values_of
nine_left = values_of-act_view 2 Act.pops two_values
