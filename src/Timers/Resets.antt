-- ===== src/Timers/Resets.antt =====
-- What the timers of timer.cpp do in the queue when they are set again.
use maelstromdb.Base.{
  ℕ, ℤ, ◌+ℤ◌, ◌≡◌, ◌≢◌, refl, sym, List, [], ◌∷◌, ◌++◌, true, false, not, if◌then◌else◌, arith,
  Bool-cases, inl, inr, ◌<ℤ◌, eqb, ltb_ℤ, leb_ℤ, eqb_ℤ, eqb_ℤ_iff, eqb_iff, ap,
}
use maelstromdb.Base.Result.{ok, undefined}
use maelstromdb.Timers.{
  TimerEvent, add, remove, TimerQueue, is_before, is_sorted, is_expired, execute, run_expired,
  next_deadline, process_requests, process_timers, reset, modify, remove_timer, add_timer,
  update_worker_thread, set_deadline, add_timer_internal, remove_timer_internal,
}

-- The queue after a timer is set at the time: its worker runs, and has two requests.
abbrev set : ℤ → ℕ → TimerQueue → TimerQueue
set time timer q = record q {
  events = λ t.
      if eqb t timer
      then record (q.events t) { m_deadline = time +ℤ (q.events t).m_delay; m_cancelled = false }
      else q.events t;
  m_request_queue = (timer, remove) ∷ (timer, add) ∷ [];
  m_worker = if not q.m_idle then q.m_worker else true;
  m_idle = false;
}

reset-set :
    (time : ℤ) (timer : ℕ) (q : TimerQueue)
    → q.m_abort ≡ false
    → q.m_request_queue ≡ []
    → reset time timer q ≡ ok (set time timer q)
unfolding reset modify remove_timer add_timer set_deadline update_worker_thread
reset-set time timer q running none = elim (Bool-cases q.m_idle) [
  | inl idle ↦ rw (running, none, idle) refl
  | inr busy ↦ rw (running, none, busy) refl
]

set-deadline :
    (time : ℤ) (timer : ℕ) (q : TimerQueue)
    → (set time timer q).events timer ≡ record (q.events timer) {
      m_deadline = time +ℤ (q.events timer).m_delay;
      m_cancelled = false;
    }
set-deadline time timer q =
    let same : eqb timer timer ≡ true = (eqb_iff timer timer).1 refl in rw same refl

set-other :
    (time : ℤ) (timer next : ℕ) (q : TimerQueue)
    → timer ≢ next
    → (set time timer q).events next ≡ q.events next
set-other time timer next q other = elim (Bool-cases (eqb next timer)) [
  | inl same ↦ elim (other (sym ((eqb_iff next timer).0 same))) [ ]
  | inr q' ↦ rw q' refl
]

-- A timer that is taken out of the queue and put back, alone in it and not cancelled.
process_alone :
    (later : ℤ) (timer : ℕ) (e : TimerEvent) (q : TimerQueue)
    → q.m_process_queue ≡ timer ∷ []
    → q.events timer ≡ e
    → e.m_cancelled ≡ false
    → process_timers later ((timer, remove) ∷ (timer, add) ∷ []) q
      ≡ ok (
          if ltb_ℤ later e.m_deadline then (e.m_deadline, q) else (
            later +ℤ ℤ.pos 5000,
            record q {
              m_process_queue = [];
              enqueued = q.enqueued ++ ((e.m_executor, e.m_callback) ∷ []);
            },
          ))
unfolding process_timers process_requests remove_timer_internal add_timer_internal run_expired
    is_expired execute next_deadline
process_alone later timer e q alone event active =
    let same : eqb_ℤ e.m_deadline e.m_deadline ≡ true =
      (eqb_ℤ_iff e.m_deadline e.m_deadline).1 refl in
    elim (Bool-cases (ltb_ℤ later e.m_deadline)) [
      | inl early ↦
          let waits : leb_ℤ e.m_deadline later ≡ false = ground arith in
          rw (alone, event, same, early, event, waits)
            (ap (λ f. ok (f.m_deadline, record q { m_process_queue = timer ∷ [] })) event)
      | inr late ↦
          let due : leb_ℤ e.m_deadline later ≡ true = ground arith in
          rw (alone, event, same, late, event, due, active) refl
    ]

-- A timer alone in the queue of a worker that is not shut down and has no requests left can be set
-- again. When its requests are processed before the new deadline, it waits; from the deadline on,
-- its callback is enqueued once, and the queue is empty.
pub reset_lem :
    (time later : ℤ) (timer : ℕ) (q : TimerQueue)
    → q.m_abort ≡ false
    → q.m_request_queue ≡ []
    → q.m_process_queue ≡ timer ∷ []
    → (t : TimerQueue) × (reset time timer q ≡ ok t)
      × (process_timers later t.m_request_queue (record t { m_request_queue = [] })
          ≡ ok (
              if ltb_ℤ later (time +ℤ (q.events timer).m_delay)
              then (time +ℤ (q.events timer).m_delay, record t { m_request_queue = [] })
              else (
                later +ℤ ℤ.pos 5000,
                record t {
                  m_request_queue = [];
                  m_process_queue = [];
                  enqueued =
                      q.enqueued
                      ++ (((q.events timer).m_executor, (q.events timer).m_callback) ∷ []);
                },
              )))
reset_lem time later timer q running none alone = (
  set time timer q,
  reset-set time timer q running none,
  process_alone later timer
      (record (q.events timer) {
        m_deadline = time +ℤ (q.events timer).m_delay;
        m_cancelled = false;
      })
      (record (set time timer q) { m_request_queue = [] }) alone (set-deadline time timer q) refl,
)

-- A timer whose deadline moves past the one of the next timer in the queue is out of order in it
-- when the worker comes to the request that removes it: the worker's search is undefined.
pub reset-undefined :
    (time later : ℤ) (timer next : ℕ) (timers : List ℕ) (q : TimerQueue)
    → q.m_abort ≡ false
    → q.m_request_queue ≡ []
    → q.m_process_queue ≡ timer ∷ next ∷ timers
    → timer ≢ next
    → (q.events next).m_deadline <ℤ (time +ℤ (q.events timer).m_delay)
    → (t : TimerQueue) × (reset time timer q ≡ ok t)
      × (process_timers later t.m_request_queue (record t { m_request_queue = [] }) ≡ undefined)
unfolding process_timers process_requests remove_timer_internal is_sorted is_before
reset-undefined time later timer next timers q running none order other early =
    let unordered : ltb_ℤ (q.events next).m_deadline (time +ℤ (q.events timer).m_delay) ≡ true =
      ground arith in
    (
      set time timer q,
      reset-set time timer q running none,
      rw (order, set-deadline time timer q, set-other time timer next q other, unordered) refl,
    )
