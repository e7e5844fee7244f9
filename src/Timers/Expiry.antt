-- ===== src/Timers/Expiry.antt =====
-- What `ProcessTimers` of timer.cpp runs, and what it leaves.
use maelstromdb.Base.{
  ℕ, ℤ, ◌≡◌, refl, sym, List, [], ◌∷◌, ◌++◌, append-nil, append_assoc, true, false, not, ◌&&◌,
  if◌then◌else◌, arith, Bool-cases, inl, inr, ◌<ℤ◌,
}
use maelstromdb.Timers.{
  TimerEvent, TimerQueue, is_before, is_sorted, is_expired, execute, run_expired,
}
use maelstromdb.Timers.Order.{is_sorted-tail}

module _ (time : ℤ) (events : ℕ → TimerEvent) where
  -- The timers that wait on.
  unfoldable pub waiting : List ℕ → List ℕ
  waiting [] = []
  waiting (timer ∷ timers) =
      if is_expired time (events timer) then waiting timers else timer ∷ waiting timers

  -- The callbacks that are due, with their executors, in order.
  unfoldable pub due : List ℕ → List (ℕ × ℕ)
  due [] = []
  due (timer ∷ timers) =
      if is_expired time (events timer) && not (events timer).m_cancelled
      then ((events timer).m_executor, (events timer).m_callback) ∷ due timers
      else due timers

  is_expired-next :
      (timer x : ℕ) (timers : List ℕ)
      → is_sorted events (timer ∷ x ∷ timers) ≡ true
      → is_expired time (events timer) ≡ false
      → is_expired time (events x) ≡ false
  unfolding is_sorted is_before is_expired
  is_expired-next timer x timers h early = ground arith

  -- In a queue in order, the timers after one that waits all wait.
  waiting-all :
      (timer : ℕ) (timers : List ℕ)
      → is_sorted events (timer ∷ timers) ≡ true
      → is_expired time (events timer) ≡ false
      → (waiting (timer ∷ timers) ≡ timer ∷ timers) × (due (timer ∷ timers) ≡ [])
  unfolding waiting due
  waiting-all timer [] h early = rw early (refl, refl)
  waiting-all timer (x ∷ timers) h early =
      let later = is_expired-next timer x timers h early in
      let (rest, none) = waiting-all x timers (is_sorted-tail events timer (x ∷ timers) h) later in
      rw (early, rest, none) (refl, refl)

  -- Every timer that waits is due after the time.
  pub AreLater : List ℕ → Type 0
  AreLater [] = Unit
  AreLater (timer ∷ timers) = (time <ℤ (events timer).m_deadline) × AreLater timers

  pub waiting-AreLater : (timers : List ℕ) → AreLater (waiting timers)
  unfolding waiting AreLater is_expired
  waiting-AreLater [] = tt
  waiting-AreLater (timer ∷ timers) = elim (Bool-cases (is_expired time (events timer))) [
    | inl q ↦ rw q (waiting-AreLater timers)
    | inr q ↦ rw q (ground arith, waiting-AreLater timers)
  ]

  due-nil : due [] ≡ []
  unfolding due
  due-nil = refl

  due-expired :
      (timer : ℕ) (timers : List ℕ)
      → is_expired time (events timer) ≡ true
      → due (timer ∷ timers) ≡ (
          if (events timer).m_cancelled
          then due timers
          else ((events timer).m_executor, (events timer).m_callback) ∷ due timers)
  unfolding due
  due-expired timer timers late = elim (Bool-cases (events timer).m_cancelled) [
    | inl c ↦ rw (late, c) refl
    | inr c ↦ rw (late, c) refl
  ]

  waiting-nil : waiting [] ≡ []
  unfolding waiting
  waiting-nil = refl

  waiting-expired :
      (timer : ℕ) (timers : List ℕ)
      → is_expired time (events timer) ≡ true
      → waiting (timer ∷ timers) ≡ waiting timers
  unfolding waiting
  waiting-expired timer timers late = rw late refl

  pub waiting-is_sorted :
      (timers : List ℕ) → is_sorted events timers ≡ true → is_sorted events (waiting timers) ≡ true
  waiting-is_sorted [] h = rw waiting-nil h
  waiting-is_sorted (timer ∷ timers) h = elim (Bool-cases (is_expired time (events timer))) [
    | inl q ↦
        rw (waiting-expired timer timers q)
          (waiting-is_sorted timers (is_sorted-tail events timer timers h))
    | inr q ↦ rw (waiting-all timer timers h q).0 h
  ]

-- The loop over a queue in order: the timers whose deadline has passed leave it, those that are not
-- cancelled have their callbacks enqueued in the order of their deadlines, and the others wait on.
pub run_expired_lem :
    (time : ℤ) (timers : List ℕ) (q : TimerQueue)
    → is_sorted q.events timers ≡ true
    → run_expired time timers q ≡ record q {
      m_process_queue = waiting time q.events timers;
      enqueued = q.enqueued ++ due time q.events timers;
    }
unfolding run_expired execute
run_expired_lem time [] q h =
    rw (waiting-nil time q.events, due-nil time q.events, append-nil q.enqueued) refl
run_expired_lem time (timer ∷ timers) q h =
    let rest = is_sorted-tail q.events timer timers h in
    elim (Bool-cases (is_expired time (q.events timer))) [
      | inr early ↦
          let (all, none) = waiting-all time q.events timer timers h early in
          rw (early, all, none, append-nil q.enqueued) refl
      | inl late ↦ elim (Bool-cases (q.events timer).m_cancelled) [
        | inl c ↦
            rw
              (
                late,
                waiting-expired time q.events timer timers late,
                due-expired time q.events timer timers late,
                c,
              )
              (run_expired_lem time timers q rest)
        | inr c ↦
            let e = q.events timer in
            let call : ℕ × ℕ = (e.m_executor, e.m_callback) in
            rw
              (
                late,
                waiting-expired time q.events timer timers late,
                due-expired time q.events timer timers late,
                c,
                sym (append_assoc q.enqueued (call ∷ []) (due time q.events timers)),
              )
              (run_expired_lem time timers (record q { enqueued = q.enqueued ++ (call ∷ []) }) rest)
      ]
    ]
