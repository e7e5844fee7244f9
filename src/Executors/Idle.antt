-- ===== src/Executors/Idle.antt =====
-- Which worker a pool of async_executor.cpp picks.
use maelstromdb.Base.{
  ℕ, zero, suc, ℤ, ◌+◌, ◌%◌, ◌≤◌, ◌<◌, ◌≡◌, ◌⊎◌, inl, inr, refl, List, true, false, eqb, length,
  minus_one, Bool-cases, arith, ◌∷◌, [], ◌-ℤ◌,
}
use maelstromdb.Base.Result.{ok, undefined}
use maelstromdb.Executors.Pool.{
  Worker, Pool, is_idle_at, find_idle_from, find_idle_worker, remainder, round_robin_next, enqueue,
  enqueue_at,
}

-- The answer of a search from an index on: the first idle worker, or -1 where none is idle.
pub data IsFirstIdle (start : ℕ) (workers : List Worker) (r : ℤ) : Type 0 where
  none_idle :
      r ≡ minus_one
      → ((j : ℕ) → start ≤ j → j < length workers → is_idle_at j workers ≡ ok false)
      → IsFirstIdle start workers r
  first_idle :
      (i : ℕ)
      → r ≡ ℤ.pos i
      → i < length workers
      → is_idle_at i workers ≡ ok true
      → ((j : ℕ) → start ≤ j → j < i → is_idle_at j workers ≡ ok false)
      → IsFirstIdle start workers r

is_idle_at-ok :
    (workers : List Worker) (i : ℕ)
    → i < length workers
    → (is_idle_at i workers ≡ ok true) ⊎ (is_idle_at i workers ≡ ok false)
unfolding is_idle_at
is_idle_at-ok [] i h = absurd (omega arith)
is_idle_at-ok (w ∷ workers) zero h = elim (Bool-cases w.m_idle) [
  | inl q ↦ inl (rw q refl)
  | inr q ↦ inr (rw q refl)
]
is_idle_at-ok (w ∷ workers) (suc i) h = is_idle_at-ok workers i (omega arith)

start_or_later : (start j : ℕ) → start ≤ j → (start ≡ j) ⊎ (suc start ≤ j)
start_or_later start j h = ground arith

IsFirstIdle-busy :
    (start : ℕ) (workers : List Worker) (r : ℤ)
    → is_idle_at start workers ≡ ok false
    → IsFirstIdle (suc start) workers r
    → IsFirstIdle start workers r
IsFirstIdle-busy start workers r busy (none_idle h all) = none_idle h (λ j low high.
    elim (start_or_later start j low) [ inl same ↦ rw⁻¹ same busy | inr later ↦ all j later high ])
IsFirstIdle-busy start workers r busy (first_idle i h bound idle before) =
    first_idle i h bound idle (λ j low high. elim (start_or_later start j low) [
      | inl same ↦ rw⁻¹ same busy
      | inr later ↦ before j later high
    ])

find_idle_from-IsFirstIdle :
    (count start : ℕ) (workers : List Worker)
    → start + count ≡ length workers
    → (r : ℤ) × (find_idle_from count start workers ≡ ok r) × IsFirstIdle start workers r
unfolding find_idle_from
find_idle_from-IsFirstIdle zero start workers h =
    (minus_one, refl, none_idle refl (λ j low high. absurd (omega arith)))
find_idle_from-IsFirstIdle (suc count) start workers h =
    let (r, found, first) = find_idle_from-IsFirstIdle count (suc start) workers (omega arith) in
    elim (is_idle_at-ok workers start (omega arith)) [
      | inl idle ↦ (
        ℤ.pos start,
        rw idle refl,
        first_idle start refl (omega arith) idle (λ j low high. absurd (omega arith)),
      )
      | inr busy ↦ (r, rw (busy, found) refl, IsFirstIdle-busy start workers r busy first)
    ]

-- In a pool whose size is the number of its workers, the search ends with the index of the first
-- idle worker, which is below the size, or with -1 where no worker is idle.
pub find_idle_worker-IsFirstIdle :
    (p : Pool)
    → p.m_pool_size ≡ length p.m_workers
    → (r : ℤ) × (find_idle_worker p ≡ ok r) × IsFirstIdle 0 p.m_workers r
unfolding find_idle_worker
find_idle_worker-IsFirstIdle p h =
    find_idle_from-IsFirstIdle p.m_pool_size 0 p.m_workers (omega arith)

-- The negation of a positive number.
negative : (m : ℕ) → 0 < m → (k : ℕ) × (ℤ.pos 0 -ℤ ℤ.pos m ≡ ℤ.negsuc k)
unfolding ◌-ℤ◌
negative zero h = absurd (omega arith)
negative (suc k) h = (k, ground arith)

-- Once the index is negative and no multiple of the size, a pool without an idle worker reads
-- outside its workers to run a callback.
pub enqueue-undefined :
    (p : Pool) (n callback : ℕ)
    → 0 < p.m_pool_size
    → find_idle_worker p ≡ ok minus_one
    → p.m_round_robin_index ≡ ℤ.negsuc n
    → 0 < (n + 1) % p.m_pool_size
    → enqueue callback p ≡ undefined
unfolding enqueue round_robin_next remainder enqueue_at
enqueue-undefined p n callback workers busy h odd =
    let some_worker : eqb p.m_pool_size 0 ≡ false = ground arith in
    let (k, below) = negative ((n + 1) % p.m_pool_size) odd in rw (busy, h, some_worker, below) refl
