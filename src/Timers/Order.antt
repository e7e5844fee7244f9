-- ===== src/Timers/Order.antt =====
-- The multiset of timer.cpp stays in the order of its comparator.
use maelstromdb.Base.{ℕ, ◌≡◌, refl, List, [], ◌∷◌, true, false, arith, Bool-cases, inl, inr, eqb_ℤ}
use maelstromdb.Base.Result.{ok}
use maelstromdb.Timers.{
  TimerEvent, TimerEventType, add, remove, TimerQueue, is_before, is_sorted, emplace, erase_equal,
  add_timer_internal, remove_timer_internal, process_requests,
}

module _ (events : ℕ → TimerEvent) where
  pub is_sorted-tail :
      (x : ℕ) (timers : List ℕ)
      → is_sorted events (x ∷ timers) ≡ true
      → is_sorted events timers ≡ true
  unfolding is_sorted
  is_sorted-tail x [] h = refl
  is_sorted-tail x (y ∷ timers) h = ground arith

  -- Past a timer that does not come after the new one.
  emplace-after :
      (timer x : ℕ) (timers : List ℕ)
      → is_before (events timer) (events x) ≡ false
      → is_sorted events (x ∷ timers) ≡ true
      → is_sorted events (x ∷ emplace events timer timers) ≡ true
  unfolding is_sorted emplace is_before
  emplace-after timer x [] after h = ground arith
  emplace-after timer x (y ∷ timers) after h =
      elim (Bool-cases (is_before (events timer) (events y))) [
        | inl q ↦ ground arith
        | inr q ↦
            let rest = emplace-after timer y timers q (is_sorted-tail x (y ∷ timers) h) in
            ground arith
      ]

  pub emplace-is_sorted :
      (timer : ℕ) (timers : List ℕ)
      → is_sorted events timers ≡ true
      → is_sorted events (emplace events timer timers) ≡ true
  unfolding is_sorted emplace is_before
  emplace-is_sorted timer [] h = refl
  emplace-is_sorted timer (x ∷ timers) h = elim (Bool-cases (is_before (events timer) (events x))) [
    | inl q ↦ ground arith
    | inr q ↦ rw q (emplace-after timer x timers q h)
  ]

  erase_equal-after :
      (timer x : ℕ) (timers : List ℕ)
      → is_sorted events (x ∷ timers) ≡ true
      → is_sorted events (x ∷ erase_equal events timer timers) ≡ true
  unfolding is_sorted erase_equal is_before
  erase_equal-after timer x [] h = refl
  erase_equal-after timer x (y ∷ []) h = ground arith
  erase_equal-after timer x (y ∷ z ∷ timers) h =
      let rest = erase_equal-after timer y (z ∷ timers) (is_sorted-tail x (y ∷ z ∷ timers) h) in
      ground arith

  pub erase_equal-is_sorted :
      (timer : ℕ) (timers : List ℕ)
      → is_sorted events timers ≡ true
      → is_sorted events (erase_equal events timer timers) ≡ true
  unfolding erase_equal
  erase_equal-is_sorted timer [] h = h
  erase_equal-is_sorted timer (x ∷ timers) h =
      elim (Bool-cases (eqb_ℤ (events x).m_deadline (events timer).m_deadline)) [
        | inl q ↦ rw q (is_sorted-tail x timers h)
        | inr q ↦ rw q (erase_equal-after timer x timers h)
      ]

-- The order depends on the deadlines alone.
pub is_sorted-deadlines :
    (events changed : ℕ → TimerEvent)
    → ((t : ℕ) → (changed t).m_deadline ≡ (events t).m_deadline)
    → (timers : List ℕ) → is_sorted changed timers ≡ is_sorted events timers
unfolding is_sorted is_before
is_sorted-deadlines events changed same [] = refl
is_sorted-deadlines events changed same (x ∷ []) = refl
is_sorted-deadlines events changed same (x ∷ y ∷ timers) =
    rw (same x, same y, is_sorted-deadlines events changed same (y ∷ timers)) refl

-- On a queue in order, requests are processed, and leave it in order; nothing else changes.
pub process_requests-is_sorted :
    (requests : List (ℕ × TimerEventType)) (q : TimerQueue)
    → is_sorted q.events q.m_process_queue ≡ true
    → (timers : List ℕ) × (process_requests requests q ≡ ok (record q { m_process_queue = timers }))
      × (is_sorted q.events timers ≡ true)
unfolding process_requests add_timer_internal remove_timer_internal
process_requests-is_sorted [] q h = (q.m_process_queue, refl, h)
process_requests-is_sorted ((timer, add) ∷ requests) q h = rw h (
    process_requests-is_sorted requests
      (record q { m_process_queue = emplace q.events timer q.m_process_queue })
      (emplace-is_sorted q.events timer q.m_process_queue h))
process_requests-is_sorted ((timer, remove) ∷ requests) q h = rw h (
    process_requests-is_sorted requests
      (record q { m_process_queue = erase_equal q.events timer q.m_process_queue })
      (erase_equal-is_sorted q.events timer q.m_process_queue h))
