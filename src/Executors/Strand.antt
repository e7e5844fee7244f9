-- ===== src/Executors/Strand.antt =====
-- async_executor.cpp, class Strand: one worker runs callbacks, which are numbers.
use maelstromdb.Base.{ℕ, List, [], ◌∷◌, ◌++◌, Bool, true, false, not, ◌&&◌, if◌then◌else◌}
use maelstromdb.Base.Result.{Result, ok, throw, runtime_error}

-- Where the worker stands: at the wait of `EventLoop`, in the loop of `ProcessEvents`, or returned.
pub data Position : Type 0 where
  waiting processing returned : Position

-- `executed` lists the callbacks that have run.
pub record Strand : Type 0 where
  pub m_abort : Bool
  pub m_request_queue : List ℕ
  pub m_process_queue : List ℕ
  pub m_worker : Position
  pub executed : List ℕ

-- The constructor, with its worker.
unfoldable pub new_strand : Strand
new_strand = record {
  m_abort = false;
  m_request_queue = [];
  m_process_queue = [];
  m_worker = waiting;
  executed = [];
}

unfoldable pub enqueue : ℕ → Strand → Result Strand
enqueue callback s =
    if s.m_abort
    then throw runtime_error
    else ok (record s { m_request_queue = s.m_request_queue ++ (callback ∷ []) })

-- `Shutdown`, up to the join of the worker.
unfoldable pub shutdown : Strand → Strand
shutdown s =
    if s.m_abort then s else record s { m_abort = true; m_request_queue = []; m_process_queue = [] }

unfoldable pub is_empty : List ℕ → Bool
is_empty [] = true
is_empty (callback ∷ callbacks) = false

-- The worker of `EventLoop` at its wait: it waits on, returns, or takes the requests.
unfoldable pub take_requests : Strand → Strand
unfolding is_empty
take_requests s =
    if is_empty s.m_request_queue && not s.m_abort
    then s
    else if s.m_abort
    then record s { m_worker = returned }
    else record s {
      m_process_queue = s.m_request_queue;
      m_request_queue = [];
      m_worker = processing;
    }

-- A turn of the loop of `ProcessEvents`.
unfoldable pub process_event : Strand → Strand
process_event s = elim s.m_process_queue [
  | [] ↦ record s { m_worker = waiting }
  | callback ∷ callbacks ↦
      let popped : Strand = record s { m_process_queue = callbacks } in
      if s.m_abort
      then record popped { m_worker = waiting }
      else record popped { executed = s.executed ++ (callback ∷ []) }
]

-- What the worker does next.
unfoldable pub work : Strand → Strand
unfolding take_requests process_event
work s = elim s.m_worker [ waiting ↦ take_requests s | processing ↦ process_event s | returned ↦ s ]
