-- ===== src/Timers.antt =====
-- src/core/timer.{h,cpp}: timers and the queue that runs them, in the worker's and the callers'
-- steps.
--
-- The timers are shared: a timer is a number, and the state holds what it points to. Times are
-- milliseconds of `steady_clock`, which a step that reads the clock takes as an argument.
use maelstromdb.Base.{
  ℕ, ℤ, ◌+ℤ◌, ◌≡◌, List, [], ◌∷◌, ◌++◌, Bool, true, false, not, ◌&&◌, ◌||◌, if◌then◌else◌, eqb,
  ltb_ℤ, leb_ℤ, eqb_ℤ,
}
use maelstromdb.Base.Result.{Result, ok, throw, undefined, runtime_error, ◌>>=◌}
mod Tests
pub mod Expiry
pub mod Deadlines
pub mod Order
pub mod Resets

-- `TimerCallbackEvent`, with the executor and the callback by their numbers.
pub record TimerEvent : Type 0 where
  pub m_cancelled : Bool
  pub m_executor : ℕ
  pub m_deadline : ℤ
  pub m_delay : ℤ
  pub m_callback : ℕ

pub data TimerEventType : Type 0 where
  add remove : TimerEventType

-- `m_process_queue` is the multiset in its order; `m_worker` tells whether a thread was started;
-- `enqueued` lists what the executors were given, with the callback, in order.
pub record TimerQueue : Type 0 where
  pub events : ℕ → TimerEvent
  pub m_request_queue : List (ℕ × TimerEventType)
  pub m_process_queue : List ℕ
  pub m_abort : Bool
  pub m_worker : Bool
  pub m_idle : Bool
  pub enqueued : List (ℕ × ℕ)

unfoldable pub new_queue : (ℕ → TimerEvent) → TimerQueue
new_queue events = record {
  events = events;
  m_request_queue = [];
  m_process_queue = [];
  m_abort = false;
  m_worker = false;
  m_idle = true;
  enqueued = [];
}

-- `SetDeadline`
unfoldable pub set_deadline : ℤ → ℤ → TimerEvent → TimerEvent
set_deadline time delay e = record e { m_deadline = time +ℤ delay }

unfoldable pub new_event : ℤ → ℤ → ℕ → ℕ → TimerEvent
unfolding set_deadline
new_event time delay executor callback = set_deadline time delay (record {
  m_cancelled = false;
  m_executor = executor;
  m_deadline = ℤ.pos 0;
  m_delay = delay;
  m_callback = callback;
})

-- `Expired`
unfoldable pub is_expired : ℤ → TimerEvent → Bool
is_expired time e = leb_ℤ e.m_deadline time

-- `Comparator`
unfoldable pub is_before : TimerEvent → TimerEvent → Bool
is_before e f = ltb_ℤ e.m_deadline f.m_deadline

-- A change of the event of a timer, seen by everyone who shares it.
unfoldable pub modify : ℕ → (TimerEvent → TimerEvent) → TimerQueue → TimerQueue
modify timer change q = record q {
  events = λ t. if eqb t timer then change (q.events t) else q.events t;
}

-- `CreateTimer`, with the number of the new timer.
unfoldable pub create_timer : ℕ → ℤ → ℤ → ℕ → ℕ → TimerQueue → TimerQueue
unfolding modify new_event
create_timer timer time delay executor callback q =
    modify timer (λ e. new_event time delay executor callback) q

-- `UpdateWorkerThread`
unfoldable pub update_worker_thread : TimerQueue → TimerQueue
update_worker_thread q = if not q.m_idle then q else record q { m_worker = true; m_idle = false }

unfoldable pub add_timer : ℕ → TimerQueue → Result TimerQueue
unfolding update_worker_thread
add_timer timer q =
    if q.m_abort
    then throw runtime_error
    else (let updated = update_worker_thread q in
        ok (record updated { m_request_queue = updated.m_request_queue ++ ((timer, add) ∷ []) }))

unfoldable pub remove_timer : ℕ → TimerQueue → TimerQueue
remove_timer timer q = record q { m_request_queue = q.m_request_queue ++ ((timer, remove) ∷ []) }

-- `DeadlineTimerImpl::Cancel`, and its destructor.
unfoldable pub cancel : ℕ → TimerQueue → TimerQueue
unfolding modify remove_timer
cancel timer q = remove_timer timer (modify timer (λ e. record e { m_cancelled = true }) q)

-- `DeadlineTimerImpl::Reset()`: the deadline changes before the worker has removed the timer.
unfoldable pub reset : ℤ → ℕ → TimerQueue → Result TimerQueue
unfolding modify remove_timer add_timer set_deadline
reset time timer q = add_timer timer (
    modify timer (λ e. record (set_deadline time e.m_delay e) { m_cancelled = false })
      (remove_timer timer q))

-- `DeadlineTimerImpl::Reset(delay)`
unfoldable pub reset_delay : ℤ → ℤ → ℕ → TimerQueue → Result TimerQueue
unfolding reset
reset_delay time delay timer q =
    reset time timer (modify timer (λ e. record e { m_delay = delay }) q)

-- `DeadlineTimerImpl::Reset(callback, delay)`
unfoldable pub reset_callback : ℤ → ℕ → ℤ → ℕ → TimerQueue → Result TimerQueue
unfolding reset_delay
reset_callback time callback delay timer q =
    reset_delay time delay timer (modify timer (λ e. record e { m_callback = callback }) q)

-- `Shutdown`: the worker that is joined has seen `m_abort`.
unfoldable pub shutdown : TimerQueue → TimerQueue
shutdown q =
    if q.m_abort
    then q
    else if not q.m_worker
    then record q { m_abort = true }
    else record q { m_abort = true; m_request_queue = []; m_worker = false }

-- `Empty`
unfoldable pub is_empty : List (ℕ × TimerEventType) → Bool
is_empty [] = true
is_empty (request ∷ requests) = false

-- Whether the multiset is in the order of its comparator. An operation on one that is not, since a
-- deadline in it has changed, is undefined.
unfoldable pub is_sorted : (ℕ → TimerEvent) → List ℕ → Bool
is_sorted events [] = true
is_sorted events (x ∷ []) = true
is_sorted events (x ∷ y ∷ timers) =
    not (is_before (events y) (events x)) && is_sorted events (y ∷ timers)

-- `emplace` of the multiset, after the timers of the same deadline.
unfoldable pub emplace : (ℕ → TimerEvent) → ℕ → List ℕ → List ℕ
emplace events timer [] = timer ∷ []
emplace events timer (x ∷ timers) =
    if is_before (events timer) (events x)
    then timer ∷ x ∷ timers
    else x ∷ emplace events timer timers

-- `find` and `erase` of the multiset. Among the timers of the same deadline `std::multiset::find`
-- may return any; this takes the first.
unfoldable pub erase_equal : (ℕ → TimerEvent) → ℕ → List ℕ → List ℕ
erase_equal events timer [] = []
erase_equal events timer (x ∷ timers) =
    if eqb_ℤ (events x).m_deadline (events timer).m_deadline
    then timers
    else x ∷ erase_equal events timer timers

unfoldable pub add_timer_internal : ℕ → TimerQueue → Result TimerQueue
unfolding is_sorted emplace
add_timer_internal timer q =
    if is_sorted q.events q.m_process_queue
    then ok (record q { m_process_queue = emplace q.events timer q.m_process_queue })
    else undefined

unfoldable pub remove_timer_internal : ℕ → TimerQueue → Result TimerQueue
unfolding is_sorted erase_equal
remove_timer_internal timer q =
    if is_sorted q.events q.m_process_queue
    then ok (record q { m_process_queue = erase_equal q.events timer q.m_process_queue })
    else undefined

-- The first loop of `ProcessTimers`.
unfoldable pub process_requests : List (ℕ × TimerEventType) → TimerQueue → Result TimerQueue
process_requests [] q = ok q
process_requests ((timer, add) ∷ requests) q = do
  added ← add_timer_internal timer q
  process_requests requests added
process_requests ((timer, remove) ∷ requests) q = do
  removed ← remove_timer_internal timer q
  process_requests requests removed

-- `Execute`, with an executor that takes the callback.
unfoldable pub execute : ℕ → TimerQueue → TimerQueue
execute timer q =
    let e = q.events timer in
    if e.m_cancelled
    then q
    else record q { enqueued = q.enqueued ++ ((e.m_executor, e.m_callback) ∷ []) }

-- The second loop of `ProcessTimers`, over the timers that are left.
unfoldable pub run_expired : ℤ → List ℕ → TimerQueue → TimerQueue
run_expired time [] q = record q { m_process_queue = [] }
run_expired time (timer ∷ timers) q =
    if not (is_expired time (q.events timer))
    then record q { m_process_queue = timer ∷ timers }
    else run_expired time timers (execute timer q)

-- The time up to which the worker waits.
unfoldable pub next_deadline : ℤ → TimerQueue → ℤ
next_deadline time q = elim q.m_process_queue [
  | [] ↦ time +ℤ ℤ.pos 5000
  | timer ∷ timers ↦ (q.events timer).m_deadline
]

unfoldable pub process_timers : ℤ → List (ℕ × TimerEventType) → TimerQueue → Result (ℤ × TimerQueue)
unfolding process_requests run_expired next_deadline
process_timers time requests q = do
  updated ← process_requests requests q
  let ran = run_expired time updated.m_process_queue updated
  ok (next_deadline time ran, ran)

-- How a turn of `EventLoop` ends: the worker returns, or it waits again up to a time.
pub data LoopTurn : Type 0 where
  returned : TimerQueue → LoopTurn
  waits : ℤ → TimerQueue → LoopTurn

-- A turn of `EventLoop`, from the end of its wait on.
unfoldable pub event_loop_turn : ℤ → TimerQueue → Result LoopTurn
unfolding process_timers is_empty
event_loop_turn time q =
    let notified = not (is_empty q.m_request_queue) || q.m_abort in
    if elim q.m_process_queue [ [] ↦ not notified | _ ↦ false ]
    then ok (returned (record q { m_idle = true }))
    else if q.m_abort
    then ok (returned q)
    else (do
      (next, processed) ← process_timers time q.m_request_queue (record q { m_request_queue = [] })
      ok (waits next processed))
