-- ===== src/Executors/Tests.antt =====
-- A strand and a pool of three workers.
use maelstromdb.Base.{ℤ, ◌≡◌, refl, List, [], ◌∷◌, true, false}
use maelstromdb.Executors.Strand.{
  Strand, new_strand, enqueue, shutdown, take_requests, process_event, work, is_empty,
}
use maelstromdb.Executors.Order.{
  Run, start, enqueued, worked, stopped, IsOrdered, Run-IsOrdered, after_turns, drain_lem,
}
use maelstromdb.Executors.Pool
use maelstromdb.Executors.Pool.{
  Worker, Pool, is_idle_at, find_idle_from, find_idle_worker, round_robin_next,
}

program : Unit {0}
unfolding new_strand enqueue shutdown take_requests process_event work is_empty Pool.new_worker
    is_idle_at find_idle_from find_idle_worker
program = tt

-- The strand with two requests.
abbrev two : Strand
unfolding program
two = record new_strand { m_request_queue = 5 ∷ 6 ∷ [] }

abbrev running : Run (5 ∷ 6 ∷ []) (shutdown (work (work two)))
unfolding program
running = stopped (worked (worked (enqueued 6 (enqueued 5 start refl) refl)))

Run-IsOrdered_example : IsOrdered (5 ∷ 6 ∷ []) (shutdown (work (work two)))
unfolding program
Run-IsOrdered_example = Run-IsOrdered running

drain_lem_example : after_turns 4 two ≡ record two { m_request_queue = []; executed = 5 ∷ 6 ∷ [] }
unfolding program
drain_lem_example = drain_lem two refl refl refl

abbrev busy : Worker
unfolding program
busy = record Pool.new_worker { m_idle = false; m_worker = true }

abbrev three : List Worker → ℤ → Pool
three workers index = record {
  m_abort = false;
  m_pool_size = 3;
  m_round_robin_index = index;
  m_workers = workers;
}
