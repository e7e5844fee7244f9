-- ===== src/Executors/Order.antt =====
-- The order in which a strand of async_executor.cpp runs what it is given.
use maelstromdb.Base.{
  ℕ, zero, suc, ◌≡◌, refl, sym, ap, ◌∙◌, List, [], ◌∷◌, ◌++◌, append-nil, append_assoc, Bool, true,
  false, length,
}
use maelstromdb.Base.Result.{ok, ok-injective}
use maelstromdb.Executors.Strand.{
  Strand, Position, waiting, processing, returned, new_strand, enqueue, shutdown, take_requests,
  process_event, work, is_empty,
}

-- The strand after calls and turns of its worker in any order, with the callbacks that it has
-- taken.
pub data Run : List ℕ → Strand → Type 0 where
  start : Run [] new_strand
  enqueued :
      {given : List ℕ} {s t : Strand} (callback : ℕ)
      → Run given s
      → enqueue callback s ≡ ok t
      → Run (given ++ (callback ∷ [])) t
  stopped : {given : List ℕ} {s : Strand} → Run given s → Run given (shutdown s)
  worked : {given : List ℕ} {s : Strand} → Run given s → Run given (work s)

-- The callbacks that have run are the first ones given, in order; until a shutdown, the others are
-- in the queues, those in process first, and the worker has not returned; a worker that waits has
-- no callback in process.
pub record IsOrdered (given : List ℕ) (s : Strand) : Type 0 where
  pub rest : List ℕ
  pub split : given ≡ s.executed ++ rest
  pub queued : s.m_abort ≡ false → rest ≡ s.m_process_queue ++ s.m_request_queue
  pub idle : s.m_worker ≡ waiting → s.m_abort ≡ false → s.m_process_queue ≡ []
  pub alive : s.m_worker ≡ returned → s.m_abort ≡ true

-- A strand by its parts.
abbrev strand : Bool → List ℕ → List ℕ → Position → List ℕ → Strand
strand abort requests process worker executed = record {
  m_abort = abort;
  m_request_queue = requests;
  m_process_queue = process;
  m_worker = worker;
  executed = executed;
}

enqueue-IsOrdered :
    (given : List ℕ) (callback : ℕ) (abort : Bool) (requests process : List ℕ) (worker : Position)
    (executed : List ℕ) (t : Strand)
    → enqueue callback (strand abort requests process worker executed) ≡ ok t
    → IsOrdered given (strand abort requests process worker executed)
    → IsOrdered (given ++ (callback ∷ [])) t
unfolding enqueue
enqueue-IsOrdered given callback true requests process worker executed t h g = cc
enqueue-IsOrdered given callback false requests process worker executed t h g =
    let same : strand false (requests ++ (callback ∷ [])) process worker executed ≡ t =
      ok-injective h in
    let kept : IsOrdered (given ++ (callback ∷ []))
        (strand false (requests ++ (callback ∷ [])) process worker executed) =
      record {
        rest = g.rest ++ (callback ∷ []);
        split = rw (g.split, append_assoc executed g.rest (callback ∷ [])) refl;
        queued = λ running. rw (g.queued refl, append_assoc process requests (callback ∷ [])) refl;
        idle = g.idle;
        alive = g.alive;
      } in
    rw⁻¹ same kept

shutdown-IsOrdered :
    (given : List ℕ) (abort : Bool) (requests process : List ℕ) (worker : Position)
    (executed : List ℕ)
    → IsOrdered given (strand abort requests process worker executed)
    → IsOrdered given (shutdown (strand abort requests process worker executed))
unfolding shutdown
shutdown-IsOrdered given true requests process worker executed g = g
shutdown-IsOrdered given false requests process worker executed g = record {
  rest = g.rest;
  split = g.split;
  queued = λ running. cc;
  idle = λ waits running. refl;
  alive = λ gone. refl;
}

work-IsOrdered :
    (given : List ℕ) (abort : Bool) (requests process : List ℕ) (worker : Position)
    (executed : List ℕ)
    → IsOrdered given (strand abort requests process worker executed)
    → IsOrdered given (work (strand abort requests process worker executed))
unfolding work take_requests process_event is_empty
work-IsOrdered given abort requests process returned executed g = g
work-IsOrdered given true [] process waiting executed g = record {
  rest = g.rest;
  split = g.split;
  queued = λ running. cc;
  idle = λ waits running. cc;
  alive = λ gone. refl;
}
work-IsOrdered given true (callback ∷ requests) process waiting executed g = record {
  rest = g.rest;
  split = g.split;
  queued = λ running. cc;
  idle = λ waits running. cc;
  alive = λ gone. refl;
}
work-IsOrdered given false [] process waiting executed g = g
work-IsOrdered given false (callback ∷ requests) process waiting executed g = record {
  rest = callback ∷ requests;
  split =
      g.split
      ∙ ap (λ r. executed ++ r)
          (g.queued refl ∙ ap (λ r. r ++ (callback ∷ requests)) (g.idle refl refl));
  queued = λ running. sym (append-nil (callback ∷ requests));
  idle = λ waits running. cc;
  alive = λ gone. cc;
}
work-IsOrdered given abort requests [] processing executed g = record {
  rest = g.rest;
  split = g.split;
  queued = g.queued;
  idle = λ waits running. refl;
  alive = λ gone. cc;
}
work-IsOrdered given true requests (callback ∷ process) processing executed g = record {
  rest = g.rest;
  split = g.split;
  queued = λ running. cc;
  idle = λ waits running. cc;
  alive = λ gone. cc;
}
work-IsOrdered given false requests (callback ∷ process) processing executed g = record {
  rest = process ++ requests;
  split =
      g.split
      ∙ ap (λ r. executed ++ r) (g.queued refl)
      ∙ sym (append_assoc executed (callback ∷ []) (process ++ requests));
  queued = λ running. refl;
  idle = λ waits running. cc;
  alive = λ gone. cc;
}

-- Whatever calls and turns of the worker there are, in any order, a strand runs the callbacks that
-- it has taken in the order in which it has taken them, each at most once; until a shutdown, those
-- that have not run are in its queues in that order, and its worker has not returned.
pub Run-IsOrdered : {given : List ℕ} {s : Strand} → Run given s → IsOrdered given s
unfolding new_strand
Run-IsOrdered start = record {
  rest = [];
  split = refl;
  queued = λ running. refl;
  idle = λ waits running. refl;
  alive = λ gone. cc;
}
Run-IsOrdered (enqueued {given} {s} {t} callback run h) =
    enqueue-IsOrdered given callback s.m_abort s.m_request_queue s.m_process_queue s.m_worker
      s.executed t h (Run-IsOrdered run)
Run-IsOrdered (stopped {given} {s} run) =
    shutdown-IsOrdered given s.m_abort s.m_request_queue s.m_process_queue s.m_worker s.executed
      (Run-IsOrdered run)
Run-IsOrdered (worked {given} {s} run) =
    work-IsOrdered given s.m_abort s.m_request_queue s.m_process_queue s.m_worker s.executed
      (Run-IsOrdered run)

-- The worker after a number of turns.
unfoldable pub after_turns : ℕ → Strand → Strand
after_turns zero s = s
after_turns (suc n) s = after_turns n (work s)

process_all :
    (requests process : List ℕ) (executed : List ℕ)
    → after_turns (suc (length process)) (strand false requests process processing executed)
      ≡ strand false requests [] waiting (executed ++ process)
unfolding after_turns work process_event
process_all requests [] executed = rw (append-nil executed) refl
process_all requests (callback ∷ process) executed =
    rw⁻¹ (append_assoc executed (callback ∷ []) process)
      (process_all requests process (executed ++ (callback ∷ [])))

drain :
    (requests process executed : List ℕ)
    → is_empty requests ≡ false
    → after_turns (suc (suc (length requests))) (strand false requests process waiting executed)
      ≡ strand false [] [] waiting (executed ++ requests)
unfolding after_turns work take_requests is_empty
drain [] process executed busy = cc
drain (callback ∷ requests) process executed busy = process_all [] (callback ∷ requests) executed

-- A worker that waits while callbacks are requested has run all of them, in order, after two turns
-- more than there are callbacks, where nothing else happens; it then waits with both queues empty.
pub drain_lem :
    (s : Strand)
    → s.m_abort ≡ false
    → s.m_worker ≡ waiting
    → is_empty s.m_request_queue ≡ false
    → after_turns (suc (suc (length s.m_request_queue))) s ≡ record s {
      m_request_queue = [];
      m_process_queue = [];
      executed = s.executed ++ s.m_request_queue;
    }
drain_lem s running waits busy =
    rw (running, waits) (drain s.m_request_queue s.m_process_queue s.executed busy)
