-- ===== src/Timers/Deadlines.antt =====
-- Which deadlines are left in the queue of timer.cpp after `ProcessTimers`.
use maelstromdb.Base.{
  ℕ, ℤ, ◌++◌, ◌+◌, ◌-◌, ◌≡◌, ◌∙◌, refl, sym, ap, List, [], ◌∷◌, true, false, ◌⊎◌, if◌then◌else◌,
  arith, Bool-cases, inl, inr, ◌+ℤ◌, leb_ℤ, eqb_ℤ, eqb_ℤ-sound,
}
use maelstromdb.Base.Result.{ok}
use maelstromdb.Timers.{
  TimerEvent, TimerEventType, add, remove, TimerQueue, is_sorted, is_expired, emplace, erase_equal,
  add_timer_internal, remove_timer_internal, process_requests, next_deadline, process_timers,
}
use maelstromdb.Timers.Order.{emplace-is_sorted, erase_equal-is_sorted}
use maelstromdb.Timers.Expiry.{
  waiting, due, AreLater, run_expired_lem, waiting-is_sorted, waiting-AreLater,
}

module _ (events : ℕ → TimerEvent) (d : ℤ) where
  -- One for a timer with the deadline `d`.
  abbrev pub one : ℕ → ℕ
  one timer = if eqb_ℤ (events timer).m_deadline d then 1 else 0

  -- How many timers have the deadline `d`.
  unfoldable pub count : List ℕ → ℕ
  count [] = 0
  count (timer ∷ timers) = one timer + count timers

  -- That number after requests, from `n` on: the removal of a timer takes one away, if there is
  -- one.
  unfoldable pub tally : List (ℕ × TimerEventType) → ℕ → ℕ
  tally [] n = n
  tally ((timer, add) ∷ requests) n = tally requests (n + one timer)
  tally ((timer, remove) ∷ requests) n = tally requests (n - one timer)

  count-emplace :
      (timer : ℕ) (timers : List ℕ) → count (emplace events timer timers) ≡ count timers + one timer
  unfolding count emplace
  count-emplace timer [] = ground arith
  count-emplace timer (x ∷ timers) = ground (arith, count-emplace timer timers)

  one_other :
      (timer x n : ℕ)
      → eqb_ℤ (events x).m_deadline (events timer).m_deadline ≡ false
      → one x + (n - one timer) ≡ (one x + n) - one timer
  one_other timer x n other = elim (Bool-cases (eqb_ℤ (events x).m_deadline d)) [
    | inl p ↦ elim (Bool-cases (eqb_ℤ (events timer).m_deadline d)) [
      | inl r ↦
          let equal = eqb_ℤ-sound (events timer).m_deadline d r in
          let both : true ≡ false = sym p ∙ ap (eqb_ℤ (events x).m_deadline) (sym equal) ∙ other in
          ground arith
      | inr r ↦ rw (p, r) (omega arith)
    ]
    | inr p ↦ rw p (omega arith)
  ]

  count-erase_equal :
      (timer : ℕ) (timers : List ℕ)
      → count (erase_equal events timer timers) ≡ count timers - one timer
  unfolding count erase_equal
  count-erase_equal timer [] = ground arith
  count-erase_equal timer (x ∷ timers) =
      elim (Bool-cases (eqb_ℤ (events x).m_deadline (events timer).m_deadline)) [
        | inl same ↦
            let equal = eqb_ℤ-sound (events x).m_deadline (events timer).m_deadline same in
            rw (same, equal) (omega arith)
        | inr other ↦
            rw (other, count-erase_equal timer timers) (one_other timer x (count timers) other)
      ]

  count-waiting :
      (time : ℤ) (timers : List ℕ)
      → count (waiting time events timers) ≡ (if leb_ℤ d time then 0 else count timers)
  unfolding count waiting is_expired
  count-waiting time [] = ground arith
  count-waiting time (timer ∷ timers) = ground (arith, count-waiting time timers)

-- Requests processed on a queue in order change how many timers have a deadline as they say.
process_requests-count :
    (requests : List (ℕ × TimerEventType)) (q : TimerQueue)
    → is_sorted q.events q.m_process_queue ≡ true
    → (timers : List ℕ) × (process_requests requests q ≡ ok (record q { m_process_queue = timers }))
      × (is_sorted q.events timers ≡ true)
      × ((d : ℤ)
          → count q.events d timers
            ≡ tally q.events d requests (count q.events d q.m_process_queue))
unfolding process_requests add_timer_internal remove_timer_internal tally
process_requests-count [] q h = (q.m_process_queue, refl, h, (λ d. refl))
process_requests-count ((timer, add) ∷ requests) q h =
    let (timers, processed, sorted, counted) =
      process_requests-count requests
        (record q { m_process_queue = emplace q.events timer q.m_process_queue })
        (emplace-is_sorted q.events timer q.m_process_queue h) in
    rw h (
      timers,
      processed,
      sorted,
      (λ d.
          counted d
          ∙ ap (tally q.events d requests) (count-emplace q.events d timer q.m_process_queue)),
    )
process_requests-count ((timer, remove) ∷ requests) q h =
    let (timers, processed, sorted, counted) =
      process_requests-count requests
        (record q { m_process_queue = erase_equal q.events timer q.m_process_queue })
        (erase_equal-is_sorted q.events timer q.m_process_queue h) in
    rw h (
      timers,
      processed,
      sorted,
      (λ d.
          counted d
          ∙ ap (tally q.events d requests) (count-erase_equal q.events d timer q.m_process_queue)),
    )

-- The time of the next turn: five seconds on if no timer waits, else the deadline of the first.
next_deadline-cases :
    (time : ℤ) (timers : List ℕ) (q : TimerQueue)
    → let next = next_deadline time (record q { m_process_queue = timers }) in
      ((timers ≡ []) × (next ≡ time +ℤ ℤ.pos 5000))
      ⊎ ((first : ℕ) × (rest : List ℕ) × (timers ≡ first ∷ rest)
          × (next ≡ (q.events first).m_deadline))
unfolding next_deadline
next_deadline-cases time [] q = inl (refl, refl)
next_deadline-cases time (timer ∷ timers) q = inr (timer, timers, refl, refl)

-- On a queue in the order of the deadlines, `ProcessTimers` succeeds and leaves a queue `t` in that
-- order, whose timers are all due after `time`. For every deadline `d` up to `time` no timer is
-- left; for every later one, the queue has as many timers as it had, plus one for each request to
-- add a timer with this deadline, less one, if there is one, for each request to remove such a
-- timer, in the order of the requests. The worker then waits up to the deadline of the first timer
-- that is left, or, if none is left, for five seconds.
pub process_timers_lem :
    (time : ℤ) (requests : List (ℕ × TimerEventType)) (q : TimerQueue)
    → is_sorted q.events q.m_process_queue ≡ true
    → (next : ℤ) × (t : TimerQueue) × (process_timers time requests q ≡ ok (next, t))
      × (is_sorted q.events t.m_process_queue ≡ true)
      × AreLater time q.events t.m_process_queue
      × ((d : ℤ)
          → count q.events d t.m_process_queue ≡ (
              if leb_ℤ d time
              then 0
              else tally q.events d requests (count q.events d q.m_process_queue)))
      × (((t.m_process_queue ≡ []) × (next ≡ time +ℤ ℤ.pos 5000))
          ⊎ ((timer : ℕ) × (timers : List ℕ) × (t.m_process_queue ≡ timer ∷ timers)
              × (next ≡ (q.events timer).m_deadline)))
unfolding process_timers
process_timers_lem time requests q h =
    let (timers, processed, sorted, counted) = process_requests-count requests q h in
    let left : TimerQueue = record q {
      m_process_queue = waiting time q.events timers;
      enqueued = q.enqueued ++ due time q.events timers;
    } in
    (
      next_deadline time left,
      left,
      rw (processed, run_expired_lem time timers (record q { m_process_queue = timers }) sorted)
          refl,
      waiting-is_sorted time q.events timers sorted,
      waiting-AreLater time q.events timers,
      (λ d. rw (count-waiting q.events d time timers, counted d) refl),
      next_deadline-cases time (waiting time q.events timers) left,
    )
