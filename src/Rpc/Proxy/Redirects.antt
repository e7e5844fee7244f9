-- ===== src/Rpc/Proxy/Redirects.antt =====
-- What leader_proxy.cpp returns to the client.
use maelstromdb.Base.{
  ℕ, zero, suc, ◌+◌, ◌*◌, ◌≤◌, ◌<◌, ◌≡◌, ◌⊎◌, inl, inr, refl, ap, ◌∙◌, List, [], ◌∷◌, true, false,
  some, not, ◌&&◌, Text, text_eq, text_eqb_self, ◌==◌, contains, length, arith, Bool-cases,
}
use maelstromdb.Base.Result.{ok}
use maelstromdb.Protos.{Status, status_ok, status_error, not_leader}
use maelstromdb.Rpc.Proxy.{
  is_ok, is_retry, leader_hint, call, retry_call, redirect_from, redirect_to_leader,
}

module _ (stubs : List Text) (answer : ℕ → Text → Status) where
  -- The answers to the calls from `n` on are RETRY, `count` times, and then another one.
  abbrev EndsAfter : ℕ → Text → ℕ → Type 0
  EndsAfter zero address n = is_retry (answer n address) ≡ false
  EndsAfter (suc count) address n =
      (is_retry (answer n address) ≡ true) × EndsAfter count address (n + 1)

  is_retry-is_ok : (st : Status) → is_retry st ≡ true → is_ok st ≡ false
  unfolding is_retry is_ok
  is_retry-is_ok st h = ground arith

  retry_call-once :
      (fuel n : ℕ) (address : Text)
      → contains address stubs ≡ true
      → is_retry (answer n address) ≡ false
      → retry_call stubs answer (suc fuel) address n ≡ ok (some (answer n address, n + 1))
  unfolding retry_call call
  retry_call-once fuel n address known h = elim (Bool-cases (is_ok (answer n address))) [
    | inl q ↦ rw (known, q) refl
    | inr q ↦ rw (known, q, h) refl
  ]

  retry_call-again :
      (fuel n : ℕ) (address : Text)
      → contains address stubs ≡ true
      → is_retry (answer n address) ≡ true
      → retry_call stubs answer (suc fuel) address n ≡ retry_call stubs answer fuel address (n + 1)
  unfolding retry_call call
  retry_call-again fuel n address known h = rw (known, is_retry-is_ok (answer n address) h, h) refl

  -- Where a server answers RETRY a number of times and then something else, `Retry` ends with that
  -- answer, on as much fuel as there are calls.
  pub retry_call_ends :
      (count n : ℕ) (address : Text)
      → contains address stubs ≡ true
      → EndsAfter count address n
      → retry_call stubs answer (suc count) address n
        ≡ ok (some (answer (n + count) address, n + count + 1))
  retry_call_ends zero n address known ends =
      retry_call-once 0 n address known ends
      ∙ ap (λ k. ok (some (answer k address, k + 1))) (omega arith)
  retry_call_ends (suc count) n address known (again, ends) =
      retry_call-again (suc count) n address known again
      ∙ retry_call_ends count (n + 1) address known ends
      ∙ ap (λ k. ok (some (answer k address, k + 1))) (omega arith)

-- What the redirection from a status and a number of calls comes to.
pub record IsOutcome (answer : ℕ → Text → Status) (status : Status) (n bound : ℕ) (st : Status)
    (m : ℕ) : Type 0 where
  pub low : n ≤ m
  pub high : m ≤ n + bound
  pub success :
      is_ok st ≡ true
      → ((m ≡ n) × (st ≡ status))
        ⊎ ((i : ℕ) × (a : Text) × (n ≤ i) × (i < m) × (is_ok (answer i a) ≡ true))

-- The rest of a redirection, after calls of which none has succeeded unless it is the last.
IsOutcome-after :
    (answer : ℕ → Text → Status) (first second : Status) (n later bound more : ℕ) (st : Status)
    (m : ℕ)
    → n < later
    → later + bound ≤ n + more
    → (is_ok second ≡ true
        → (i : ℕ) × (a : Text) × (n ≤ i) × (i < later) × (is_ok (answer i a) ≡ true))
    → IsOutcome answer second later bound st m
    → IsOutcome answer first n more st m
IsOutcome-after answer first second n later bound more st m passed enough called outcome = record {
  low = let low = outcome.low in omega arith;
  high = let high = outcome.high in omega arith;
  success = λ h. inr (elim (outcome.success h) [
    | inl (unmoved, same) ↦
        let (i, a, from, below, answered) = called (rw same at h) in
        (i, a, from, (let low = outcome.low in omega arith), answered)
    | inr (i, a, from, below, answered) ↦ (i, a, omega arith, below, answered)
  ]);
}

IsOutcome-wider :
    (answer : ℕ → Text → Status) (first : Status) (n bound more : ℕ) (st : Status) (m : ℕ)
    → bound ≤ more
    → IsOutcome answer first n bound st m
    → IsOutcome answer first n more st m
IsOutcome-wider answer first n bound more st m enough outcome = record {
  low = outcome.low;
  high = let high = outcome.high in omega arith;
  success = outcome.success;
}

-- Every server of the list has a stub.
pub AreKnown : List Text → List Text → Type 0
AreKnown stubs [] = Unit
AreKnown stubs (peer ∷ peers) = (contains peer stubs ≡ true) × AreKnown stubs peers

module _ (stubs : List Text) (answer : ℕ → Text → Status)
    (never_retry : (n : ℕ) (a : Text) → is_retry (answer n a) ≡ false)
    (known_hint : (n : ℕ) (a : Text)
      → not (leader_hint (answer n a) == []) ≡ true
      → contains (leader_hint (answer n a)) stubs ≡ true) where
  redirect_from-IsOutcome :
      (fuel : ℕ) (peers visited : List Text) (status : Status) (n : ℕ)
      → AreKnown stubs peers
      → (st : Status) × (m : ℕ) × (redirect_from stubs answer (suc fuel) peers visited status n
          ≡ ok (some (st, m)))
        × IsOutcome answer status n (2 * length peers) st m
  unfolding redirect_from AreKnown
  redirect_from-IsOutcome fuel [] visited status n known = (
    status,
    n,
    refl,
    record { low = omega arith; high = omega arith; success = λ h. inl (refl, refl) },
  )
  redirect_from-IsOutcome fuel (peer ∷ peers) visited status n (here, known) =
      let first = answer n peer in
      let hint = leader_hint first in
      let tried = retry_call-once stubs answer fuel n peer here (never_retry n peer) in
      elim (Bool-cases (contains peer visited)) [
        | inl q ↦
            let (st, m, same, outcome) =
              redirect_from-IsOutcome fuel peers visited status n known in
            (
              st,
              m,
              rw q same,
              IsOutcome-wider answer status n (2 * length peers) _ st m (omega arith) outcome,
            )
        | inr fresh ↦ elim (Bool-cases (is_ok first)) [
          | inl q ↦ (
            first,
            n + 1,
            rw (fresh, tried, q) refl,
            record {
              low = omega arith;
              high = omega arith;
              success = λ h. inr (n, peer, omega arith, omega arith, q);
            },
          )
          | inr failed ↦
              elim (Bool-cases (not (hint == []) && not (contains hint (peer ∷ visited)))) [
                | inl q ↦
                    let hinted =
                      retry_call-once stubs answer fuel (n + 1) hint
                        (known_hint n peer (ground arith)) (never_retry (n + 1) hint) in
                    let (st, m, same, outcome) =
                      redirect_from-IsOutcome fuel peers (hint ∷ peer ∷ visited)
                        (answer (n + 1) hint) (n + 1 + 1) known in
                    (
                      st,
                      m,
                      rw (fresh, tried, failed, q, hinted) same,
                      IsOutcome-after answer status (answer (n + 1) hint) n (n + 1 + 1)
                          (2 * length peers) (2 * length (peer ∷ peers)) st m (omega arith)
                          (omega arith) (λ h. (n + 1, hint, omega arith, omega arith, h)) outcome,
                    )
                | inr q ↦
                    let (st, m, same, outcome) =
                      redirect_from-IsOutcome fuel peers (peer ∷ visited) first (n + 1) known in
                    (
                      st,
                      m,
                      rw (fresh, tried, failed, q) same,
                      IsOutcome-after answer status first n (n + 1) (2 * length peers)
                          (2 * length (peer ∷ peers)) st m (omega arith) (omega arith) (λ h. cc)
                          outcome,
                    )
              ]
        ]
      ]

  AreKnown-self :
      (peers : List Text)
      → ((a : Text) → contains a peers ≡ true → contains a stubs ≡ true)
      → AreKnown stubs peers
  unfolding AreKnown contains
  AreKnown-self [] h = tt
  AreKnown-self (peer ∷ peers) h =
      (h peer (ground (arith, text_eqb_self peer)), AreKnown-self peers (λ a g. h a (ground arith)))

-- What the redirection returns, and after how many calls, where no server answers RETRY.
redirect_to_leader-IsOutcome :
    (stubs : List Text) (answer : ℕ → Text → Status) (fuel : ℕ)
    → ((n : ℕ) (a : Text) → is_retry (answer n a) ≡ false)
    → ((n : ℕ) (a : Text)
        → not (leader_hint (answer n a) == []) ≡ true
        → contains (leader_hint (answer n a)) stubs ≡ true)
    → (st : Status) × (m : ℕ) × (redirect_to_leader stubs answer (suc fuel) ≡ ok (some (st, m)))
      × IsOutcome answer status_ok 0 (2 * length stubs) st m
unfolding redirect_to_leader
redirect_to_leader-IsOutcome stubs answer fuel never_retry known_hint =
    redirect_from-IsOutcome stubs answer never_retry known_hint fuel stubs [] status_ok 0
      (AreKnown-self stubs answer never_retry known_hint stubs (λ a h. h))

-- For any three different servers and any answers, where the first does not lead and names the
-- second, the second answers the request with success, and the third fails, with no RETRY and no
-- hint: the loop goes on to the third, and its failure is what the client gets after the three
-- calls, although the request has been served.
pub success_is_dropped :
    (follower leader other : Text) (answer : ℕ → Text → Status) (fuel : ℕ)
    → not (leader == []) ≡ true
    → (follower == leader) ≡ false
    → (follower == other) ≡ false
    → (leader == other) ≡ false
    → answer 0 follower ≡ status_error not_leader leader
    → answer 1 leader ≡ status_ok
    → is_ok (answer 2 other) ≡ false
    → is_retry (answer 2 other) ≡ false
    → leader_hint (answer 2 other) ≡ []
    → redirect_to_leader (follower ∷ leader ∷ other ∷ []) answer (suc fuel)
      ≡ ok (some (answer 2 other, 3))
unfolding redirect_to_leader redirect_from retry_call call contains leader_hint is_retry is_ok
success_is_dropped follower leader other answer fuel named fl fo lo first second failed last
      unhinted =
    rw
      (
        text_eqb_self follower,
        first,
        named,
        fl,
        text_eqb_self leader,
        second,
        text_eqb_self leader,
        fo,
        lo,
        text_eqb_self other,
        failed,
        last,
        unhinted,
      )
      (rw (text_eqb_self [], failed) refl)
