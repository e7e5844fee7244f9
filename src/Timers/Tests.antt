-- ===== src/Timers/Tests.antt =====
-- Timers of a worker: the timers 0 and 1, due at 100 and 200, and the timer 2, due at 100.
use maelstromdb.Base.{
  zero, suc, ℕ, ℤ, ◌+ℤ◌, ◌≡◌, refl, List, [], ◌∷◌, true, false, arith, ◌⊎◌, leb_ℤ, if◌then◌else◌,
}
use maelstromdb.Base.Result.{ok, undefined}
use maelstromdb.Timers.{
  TimerEvent, add, TimerQueue, new_queue, new_event, set_deadline, is_sorted, is_before, is_expired,
  run_expired, process_timers, reset,
}
use maelstromdb.Timers.Expiry.{waiting, due, AreLater, run_expired_lem}
use maelstromdb.Timers.Deadlines.{count, tally, process_timers_lem}
use maelstromdb.Timers.Resets.{reset-undefined}

program : Unit {0}
unfolding new_queue new_event set_deadline is_sorted is_before is_expired waiting due ◌+ℤ◌
program = tt

abbrev events : ℕ → TimerEvent
unfolding program
events zero = new_event (ℤ.pos 0) (ℤ.pos 100) 7 1
events (suc zero) = new_event (ℤ.pos 0) (ℤ.pos 200) 7 2
events _ = new_event (ℤ.pos 0) (ℤ.pos 100) 7 3

abbrev queue : List ℕ → TimerQueue
unfolding program
queue timers = record (new_queue events) {
  m_process_queue = timers;
  m_idle = false;
  m_worker = true;
}

run_expired_lem_example :
    run_expired (ℤ.pos 150) (0 ∷ 1 ∷ []) (queue (0 ∷ 1 ∷ []))
    ≡ record (queue (0 ∷ 1 ∷ [])) { m_process_queue = 1 ∷ []; enqueued = (7, 1) ∷ [] }
unfolding program
run_expired_lem_example = run_expired_lem (ℤ.pos 150) (0 ∷ 1 ∷ []) (queue (0 ∷ 1 ∷ [])) refl

process_timers_lem_example :
    let q = queue (0 ∷ 1 ∷ []) in
    (next : ℤ) × (t : TimerQueue) × (process_timers (ℤ.pos 150) ((2, add) ∷ []) q ≡ ok (next, t))
    × (is_sorted q.events t.m_process_queue ≡ true)
    × AreLater (ℤ.pos 150) q.events t.m_process_queue
    × ((d : ℤ)
        → count q.events d t.m_process_queue ≡ (
            if leb_ℤ d (ℤ.pos 150)
            then 0
            else tally q.events d ((2, add) ∷ []) (count q.events d (0 ∷ 1 ∷ []))))
    × (((t.m_process_queue ≡ []) × (next ≡ ℤ.pos 150 +ℤ ℤ.pos 5000))
        ⊎ ((timer : ℕ) × (timers : List ℕ) × (t.m_process_queue ≡ timer ∷ timers)
            × (next ≡ (q.events timer).m_deadline)))
unfolding program
process_timers_lem_example =
    process_timers_lem (ℤ.pos 150) ((2, add) ∷ []) (queue (0 ∷ 1 ∷ [])) refl

reset-undefined_example :
    (t : TimerQueue) × (reset (ℤ.pos 150) 0 (queue (0 ∷ 1 ∷ [])) ≡ ok t)
    × (process_timers (ℤ.pos 150) t.m_request_queue (record t { m_request_queue = [] }) ≡ undefined)
unfolding program
reset-undefined_example =
    reset-undefined (ℤ.pos 150) (ℤ.pos 150) 0 1 [] (queue (0 ∷ 1 ∷ [])) refl refl refl
      (λ h. absurd (omega arith)) (omega arith)
