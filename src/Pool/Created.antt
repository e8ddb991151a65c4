-- ===== src/Pool/Created.antt =====
-- libcthreads_thread_pool_create: what it leaves.
use libcthreads.Machine.Post.{Post}
use libcthreads.Mutex.Laws as MutexLaws
use libcthreads.Condition.Laws as ConditionLaws
use libcthreads.Pool.{Members}
