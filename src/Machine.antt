-- ===== src/Machine.antt =====
-- The machine on which the library runs: an object that threads share, what the C library and
-- the threads library answer (a parameter), and the errors reported through libcerror.
pub mod Post
pub mod Answer
use libcthreads.Common.{ℕ, Option, none, some, List, ◌∷◌, ℤ, pos, negsuc}

-- An address; 0 is NULL.
abbrev pub Pointer : Type 0
Pointer = ℕ

abbrev pub null : Pointer
null = 0

-- The error domains and codes of libcerror that the library uses.
pub data ErrorCode : Type 0 where
  arguments_invalid_value arguments_value_less_than_zero : ErrorCode
  arguments_value_zero_or_less arguments_value_exceeds_maximum : ErrorCode
  arguments_unsupported_value : ErrorCode
  memory_insufficient memory_set_failed : ErrorCode
  runtime_value_already_set runtime_value_missing runtime_value_exceeds_maximum : ErrorCode
  runtime_initialize_failed runtime_finalize_failed runtime_set_failed : ErrorCode
  runtime_get_failed runtime_value_out_of_bounds : ErrorCode

-- A call of libcerror_error_set, or of libcerror_system_set_error with the system's error code.
pub data Report : Type 0 where
  error_set : ErrorCode → Report
  system_error_set : ℕ → ErrorCode → Report

-- The structures that the library allocates.
pub data Structure : Type 0 where
  internal_mutex internal_condition internal_queue internal_lock : Structure
  internal_read_write_lock internal_thread_attributes internal_thread : Structure
  internal_repeating_thread internal_thread_pool int_value : Structure

-- What the library calls and does not implement: memory and the POSIX threads functions, over a
-- world that they change. A call that can block also gives the shared object as it is when the
-- call returns, since other threads run meanwhile. A number returned is the error code.
pub record Platform (W Obj : Type 0) : Type 0 where
  pub eagain : ℕ
  pub ebusy : ℕ
  pub edeadlk : ℕ
  pub sizeof : Structure → ℕ
  pub memory_allocate : ℕ → W → Pointer × W
  pub memory_set : Pointer → ℕ → W → Pointer × W
  pub memory_free : Pointer → W → W
  pub pthread_mutex_init : Pointer → W → ℕ × W
  pub pthread_mutex_destroy : Pointer → W → ℕ × W
  pub pthread_mutex_lock : Pointer → W → Obj → ℕ × W × Obj
  pub pthread_mutex_trylock : Pointer → W → ℕ × W
  pub pthread_mutex_unlock : Pointer → W → ℕ × W
  pub pthread_rwlock_init : Pointer → W → ℕ × W
  pub pthread_rwlock_destroy : Pointer → W → ℕ × W
  pub pthread_rwlock_rdlock : Pointer → W → Obj → ℕ × W × Obj
  pub pthread_rwlock_wrlock : Pointer → W → Obj → ℕ × W × Obj
  pub pthread_rwlock_unlock : Pointer → W → ℕ × W
  -- given the attributes and the argument of the start function; also gives the thread
  pub pthread_create : Pointer → Pointer → W → (ℕ × ℕ) × W
  -- given the thread; also gives the address that the thread returned and the `int` there
  pub pthread_join : ℕ → W → Obj → (ℕ × Option (Pointer × ℤ)) × W × Obj
  pub pthread_cond_init : Pointer → W → ℕ × W
  pub pthread_cond_destroy : Pointer → W → ℕ × W
  pub pthread_cond_broadcast : Pointer → W → ℕ × W
  pub pthread_cond_signal : Pointer → W → ℕ × W
  pub pthread_cond_wait : Pointer → Pointer → W → Obj → ℕ × W × Obj

pub record State (W Obj : Type 0) : Type 0 where
  pub world : W
  pub object : Obj
  -- the latest report first
  pub errors : List Report

-- How a call ends: with a result; in an access outside an array or through NULL; or still in its
-- loop when the wake-ups that are given are used up.
pub data Exec (A : Type 0) : Type 0 where
  done : A → Exec A
  fault : Exec A
  waiting : Exec A

abbrev pub M : Type 0 → Type 0 → Type 0 → Type 0
M W Obj A = State W Obj → Exec (A × State W Obj)

infixl 5 ◌>>=◌ ◌>>◌
abbrev pub ◌>>=◌ : {W Obj A B : Type 0} → M W Obj A → (A → M W Obj B) → M W Obj B
◌>>=◌ m f s = elim (m s) [ done (a, t) ↦ f a t | fault ↦ fault | waiting ↦ waiting ]

abbrev pub ◌>>◌ : {W Obj A B : Type 0} → M W Obj A → M W Obj B → M W Obj B
m >> k = m >>= λ _. k

abbrev pub return : {W Obj A : Type 0} → A → M W Obj A
return a s = done (a, s)

-- The results of the library's functions.
abbrev pub success : ℤ
success = pos 1

abbrev pub failure : ℤ
failure = negsuc 0

abbrev pub not_done : ℤ
not_done = pos 0

abbrev pub report : {W Obj : Type 0} → Report → M W Obj (Unit {0})
report e s = done (tt, record s { errors = e ∷ s.errors })

-- Reports an error and returns -1.
abbrev pub fail : {W Obj : Type 0} → Report → M W Obj ℤ
fail e s = done (failure, record s { errors = e ∷ s.errors })

-- A call whose `error` argument is NULL.
abbrev pub with_null_error : {W Obj A : Type 0} → M W Obj A → M W Obj A
with_null_error m s = elim (m s) [
  | done (a, t) ↦ done (a, record t { errors = s.errors })
  | fault ↦ fault
  | waiting ↦ waiting
]

-- A call that changes the world only.
abbrev pub call : {W Obj A : Type 0} → (W → A × W) → M W Obj A
call f s = let (a, w) = f s.world in done (a, record s { world = w })

-- A call that may block: other threads may have changed the object.
abbrev pub blocking_call : {W Obj A : Type 0} → (W → Obj → A × W × Obj) → M W Obj A
blocking_call f s =
    let (a, w, q) = f s.world s.object in done (a, record s { world = w; object = q })

-- Reads and writes of the object; `none` is an access outside an array or through NULL.
abbrev pub access : {W Obj A : Type 0} → (Obj → Option (A × Obj)) → M W Obj A
access f s = elim (f s.object) [ none ↦ fault | some (a, q) ↦ done (a, record s { object = q }) ]

abbrev pub get_object : {W Obj : Type 0} → M W Obj Obj
get_object s = done (s.object, s)

-- Reports an error and returns -1, for a function that also leaves a value in `*location`.
abbrev pub refuse : {W Obj : Type 0} → Option Pointer → Report → M W Obj (ℤ × Option Pointer)
refuse location e s = done ((failure, location), record s { errors = e ∷ s.errors })
