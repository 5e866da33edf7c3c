-- ===== src/ProcessState/Pool.antt =====
-- The thread pool of native/ProcessState.cpp: startThreadPool, spawnPooledThread and the numbers in
-- the names of the threads (makeBinderThreadName writes the number in hexadecimal).
use learn_node.Base.{
  ℕ, suc, ◌+◌, ◌%◌, ◌^◌, ◌≡◌, refl, Bool, true, false, List, [], ◌∷◌, ◌++◌, arith, if◌then◌else◌,
}

pub record Pool : Type 0 where
  pub started : Bool
  pub seq : ℕ

pub record PoolThread : Type 0 where
  pub number : ℕ
  pub is_main : Bool

-- `mThreadPoolSeq` is an int32_t that the atomic add wraps; the name shows it without a sign.
pub make_binder_thread_name : Pool → ℕ × Pool
make_binder_thread_name p = (p.seq, record p { seq = (p.seq + 1) % 2 ^ 32 })

pub spawn_pooled_thread : Bool → Pool → Pool × List PoolThread
unfolding make_binder_thread_name
spawn_pooled_thread is_main p =
    let (n, q) = make_binder_thread_name p in
    if p.started then (q, record { number = n; is_main = is_main } ∷ []) else (p, [])

pub start_thread_pool : Pool → Pool × List PoolThread
unfolding spawn_pooled_thread
start_thread_pool p =
    if p.started then (p, []) else spawn_pooled_thread true (record p { started = true })

pub data PoolCall : Type 0 where
  starts : PoolCall
  -- BR_SPAWN_LOOPER from the driver
  spawns : PoolCall

pub pool_step : Pool → PoolCall → Pool × List PoolThread
pool_step p starts = start_thread_pool p
pool_step p spawns = spawn_pooled_thread false p

pub pool_run : Pool → List PoolCall → Pool × List PoolThread
unfolding pool_step
pool_run p [] = (p, [])
pool_run p (c ∷ cs) = let (q, ts) = pool_step p c in let (r, us) = pool_run q cs in (r, ts ++ us)

-- The pool of a new process.
abbrev pub new_pool : Pool
new_pool = record { started = false; seq = 1 }

-- What the driver may count on: nothing before the first start; that start makes the main thread,
-- and each later request one more, which is not main.

abbrev started_threads : List PoolCall → ℕ → List PoolThread
started_threads [] n = []
started_threads (starts ∷ cs) n = started_threads cs n
started_threads (spawns ∷ cs) n =
    record { number = n % 2 ^ 32; is_main = false } ∷ started_threads cs (suc n)

abbrev pub expected : List PoolCall → List PoolThread
expected [] = []
expected (spawns ∷ cs) = expected cs
expected (starts ∷ cs) = record { number = 1; is_main = true } ∷ started_threads cs 2

started-run :
    (cs : List PoolCall) (n : ℕ)
    → (pool_run (record { started = true; seq = n % 2 ^ 32 }) cs).1 ≡ started_threads cs n
unfolding pool_run start_thread_pool spawn_pooled_thread
started-run [] n = refl
started-run (starts ∷ cs) n = started-run cs n
started-run (spawns ∷ cs) n =
    let e : ((n % 2 ^ 32) + 1) % 2 ^ 32 ≡ suc n % 2 ^ 32 = omega arith in
    rw (e, started-run cs (suc n))

-- Whatever starts and requests come, the threads of a new process are these: none before the first
-- start, then the main thread under the number 1, then one thread for each request of the driver,
-- not main, under the numbers 2, 3, ... modulo 2 ^ 32; later starts make none.
pub pool_run-expected : (cs : List PoolCall) → (pool_run new_pool cs).1 ≡ expected cs
unfolding pool_run start_thread_pool spawn_pooled_thread
pool_run-expected [] = refl
pool_run-expected (spawns ∷ cs) = pool_run-expected cs
pool_run-expected (starts ∷ cs) = rw (started-run cs 2)
