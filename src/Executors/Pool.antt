-- ===== src/Executors/Pool.antt =====
-- async_executor.cpp, classes ThreadPoolExecutor and ThreadPoolWorker. The program makes no pool:
-- the constructor of one with workers throws.
use maelstromdb.Base.{
  ℕ, zero, suc, ℤ, ◌+◌, ◌-◌, ◌/◌, ◌%◌, ◌^◌, ◌+ℤ◌, ◌-ℤ◌, min, List, [], ◌∷◌, ◌++◌, Bool, true, false,
  Option, none, some, not, ◌||◌, if◌then◌else◌, eqb, leb, eqb_ℤ, length, get_elem?, take, drop,
  minus_one,
}
use maelstromdb.Base.Result.{
  Result, ok, throw, undefined, out_of_range, runtime_error, system_error, bad_weak_ptr, Error,
  ◌>>=◌,
}

-- `m_worker` tells whether a thread was started; `executed` lists the callbacks that have run.
pub record Worker : Type 0 where
  pub m_abort : Bool
  pub m_idle : Bool
  pub m_request_queue : List ℕ
  pub m_process_queue : List ℕ
  pub m_worker : Bool
  pub executed : List ℕ

pub record Pool : Type 0 where
  pub m_abort : Bool
  pub m_pool_size : ℕ
  -- a 32-bit integer
  pub m_round_robin_index : ℤ
  pub m_workers : List Worker

-- The constructor: `shared_from_this` of an object that no pointer owns yet throws.
unfoldable pub new_pool : ℕ → Result Pool
new_pool zero =
    ok (record { m_abort = false; m_pool_size = 0; m_round_robin_index = ℤ.pos 0; m_workers = [] })
new_pool (suc size) = throw bad_weak_ptr

unfoldable pub new_worker : Worker
new_worker = record {
  m_abort = false;
  m_idle = true;
  m_request_queue = [];
  m_process_queue = [];
  m_worker = false;
  executed = [];
}

-- `UpdateWorkerThread`, with whether it has released the lock.
unfoldable pub update_worker_thread : Worker → Bool × Worker
update_worker_thread w =
    if not w.m_idle then (false, w) else (true, record w { m_worker = true; m_idle = false })

-- `ThreadPoolWorker::Enqueue`, with what it throws: to release a lock a second time is an error.
unfoldable pub worker_enqueue : ℕ → Worker → Worker × Option Error
unfolding update_worker_thread
worker_enqueue callback w =
    let (released, updated) = update_worker_thread w in
    if w.m_abort then (w, some runtime_error) else (
      record updated { m_request_queue = updated.m_request_queue ++ (callback ∷ []) },
      if released then some system_error else none,
    )

-- `ThreadPoolWorker::Shutdown`: with a thread, it locks the mutex that it holds.
unfoldable pub worker_shutdown : Worker → Result Worker
worker_shutdown w =
    if w.m_abort
    then ok w
    else if not w.m_worker
    then ok (record w { m_abort = true })
    else undefined

-- `SetWorkerActivity`
unfoldable pub set_worker_activity : Bool → Worker → Worker
set_worker_activity is_active w = record w { m_idle = not is_active }

unfoldable pub is_empty : List ℕ → Bool
is_empty [] = true
is_empty (callback ∷ callbacks) = false

-- `EventLoop` before its wait, which a worker with requests does not reach: `none` where it
-- returns.
unfoldable pub enter_loop : Worker → Option Worker × Worker
unfolding is_empty set_worker_activity
enter_loop w =
    if is_empty w.m_request_queue then (some w, w) else (none, set_worker_activity false w)

-- `EventLoop` after its wait: whether there are callbacks to process.
unfoldable pub after_wait : Worker → Bool × Worker
unfolding is_empty set_worker_activity
after_wait w =
    if w.m_abort || is_empty w.m_request_queue then (false, set_worker_activity false w) else (
      true,
      set_worker_activity true
          (record w { m_process_queue = w.m_request_queue; m_request_queue = [] }),
    )

-- The loop of `ProcessEvents` over the callbacks in process.
unfoldable pub process_events : List ℕ → Worker → Worker
process_events [] w = set_worker_activity false (record w { m_process_queue = [] })
process_events (callback ∷ callbacks) w =
    if w.m_abort
    then record w { m_idle = true; m_process_queue = callbacks }
    else process_events callbacks (record w { executed = w.executed ++ (callback ∷ []) })

-- `Idle` of the worker with the index.
unfoldable pub is_idle_at : ℕ → List Worker → Result Bool
is_idle_at index workers = elim (get_elem? workers index) [
  | none ↦ undefined
  | some w ↦ ok w.m_idle
]

-- The loop of `FindIdleWorker` over `count` indices from one on.
unfoldable pub find_idle_from : ℕ → ℕ → List Worker → Result ℤ
unfolding is_idle_at
find_idle_from zero index workers = ok minus_one
find_idle_from (suc count) index workers = do
  idle ← is_idle_at index workers
  let rest = find_idle_from count (suc index) workers
  if idle then ok (ℤ.pos index) else rest

unfoldable pub find_idle_worker : Pool → Result ℤ
unfolding find_idle_from
find_idle_worker p = find_idle_from p.m_pool_size 0 p.m_workers

-- The loop of `FindIdleWorkers`, up to `wanted` of them.
unfoldable pub find_idles_from : ℕ → ℕ → ℕ → List Worker → Result (List ℕ)
unfolding is_idle_at
find_idles_from zero index wanted workers = ok []
find_idles_from (suc count) index zero workers = ok []
find_idles_from (suc count) index (suc wanted) workers = do
  idle ← is_idle_at index workers
  found ← find_idles_from count (suc index) (if idle then wanted else suc wanted) workers
  ok (if idle then index ∷ found else found)

unfoldable pub find_idle_workers : ℕ → Pool → Result (List ℕ)
unfolding find_idles_from
find_idle_workers thread_count p = find_idles_from p.m_pool_size 0 thread_count p.m_workers

-- `fetch_add(1)` on an atomic `int`, which wraps around.
unfoldable pub next_index : ℤ → ℤ
next_index i = if eqb_ℤ i (ℤ.pos (2 ^ 31 - 1)) then ℤ.negsuc (2 ^ 31 - 1) else i +ℤ ℤ.pos 1

-- `%` of C++ by a positive number: the result has the sign of the first operand.
unfoldable pub remainder : ℤ → ℕ → ℤ
remainder (ℤ.pos n) size = ℤ.pos (n % size)
remainder (ℤ.negsuc n) size = ℤ.pos 0 -ℤ ℤ.pos ((n + 1) % size)

unfoldable pub round_robin_next : Pool → Result (ℤ × Pool)
unfolding next_index remainder
round_robin_next p =
    if eqb p.m_pool_size 0
    then undefined
    else ok (
      remainder p.m_round_robin_index p.m_pool_size,
      record p { m_round_robin_index = next_index p.m_round_robin_index },
    )

-- `Worker(index)`, then `Enqueue`.
unfoldable pub enqueue_at : ℤ → ℕ → Pool → Result Pool
unfolding worker_enqueue
enqueue_at (ℤ.negsuc n) callback p = undefined
enqueue_at (ℤ.pos index) callback p = elim (get_elem? p.m_workers index) [
  | none ↦ undefined
  | some w ↦
      let (updated, error) = worker_enqueue callback w in
      elim error [
        | some e ↦ throw e
        | none ↦ ok (record p {
          m_workers = take index p.m_workers ++ (updated ∷ drop (index + 1) p.m_workers);
        })
      ]
]

-- `ThreadPoolExecutor::Enqueue`
unfoldable pub enqueue : ℕ → Pool → Result Pool
unfolding find_idle_worker round_robin_next enqueue_at
enqueue callback p = do
  idle_worker_index ← find_idle_worker p
  if not (eqb_ℤ idle_worker_index minus_one) then enqueue_at idle_worker_index callback p else (do
    (next_worker_index, moved) ← round_robin_next p
    enqueue_at next_worker_index callback moved)

-- The loop of `ThreadPoolExecutor::Shutdown`.
unfoldable pub shutdown_workers : List Worker → Result (List Worker)
unfolding worker_shutdown
shutdown_workers [] = ok []
shutdown_workers (w ∷ workers) = do
  stopped ← worker_shutdown w
  rest ← shutdown_workers workers
  ok (stopped ∷ rest)

unfoldable pub shutdown : Pool → Result Pool
unfolding shutdown_workers
shutdown p = if p.m_abort then ok p else (do
  stopped ← shutdown_workers p.m_workers
  ok (record p { m_abort = true; m_workers = stopped }))

-- The inner loop of `BalanceWork`: `count` tasks go to the worker with the index.
unfoldable pub hand_over : ℕ → ℕ → List ℕ → Pool → Result (List ℕ × Pool)
unfolding enqueue_at
hand_over zero index tasks p = ok (tasks, p)
hand_over (suc count) index [] p = if leb p.m_pool_size index then throw out_of_range else undefined
hand_over (suc count) index (task ∷ tasks) p = do
  given ← (if leb p.m_pool_size index then throw out_of_range else enqueue_at (ℤ.pos index) task p)
  hand_over count index tasks given

-- The outer loop of `BalanceWork`.
unfoldable pub hand_over_all : ℕ → List ℕ → List ℕ → Pool → Result (List ℕ × Pool)
unfolding hand_over
hand_over_all count [] tasks p = ok (tasks, p)
hand_over_all count (index ∷ indices) tasks p = do
  (left, given) ← hand_over count index tasks p
  hand_over_all count indices left given

-- `BalanceWork` of a worker with the tasks in process, in a pool that is not empty: those that are
-- left, with the pool.
unfoldable pub balance_work : List ℕ → Pool → Result (List ℕ × Pool)
unfolding find_idle_workers hand_over_all
balance_work tasks p =
    let task_count = length tasks in
    if leb task_count 1 then ok (tasks, p) else (do
      idle_markers ← find_idle_workers (min (p.m_pool_size - 1) (task_count - 1)) p
      if eqb (length idle_markers) 0
          then ok (tasks, p)
          else hand_over_all (task_count / (length idle_markers + 1)) idle_markers tasks p)
