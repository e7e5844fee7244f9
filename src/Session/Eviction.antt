-- ===== src/Session/Eviction.antt =====
-- The cache of sessions in src/raft/session_cache.cpp under its operations: never more sessions
-- than its capacity, and which one is evicted.
use maelstromdb.Base.{
  ℤ, suc, ◌+◌, ◌-◌, ◌≤◌, ◌≡◌, refl, sym, List, [], ◌∷◌, true, false, Bool-cases, Option-cases, some,
  if◌then◌else◌, arith, length, contains, IsDistinct, find, assign, find-assign, find-erase_key,
  ltb, ◌==◌, int_eq, eqb_ℤ_iff, remove, contains-remove, length-remove, remove-IsDistinct, ap, take,
  take_of_length-le, inl, inr,
}
use maelstromdb.Base.Result.{ok}
use maelstromdb.Session.{
  SessionCache, ClientRequestResponse, Responses, split_last, erase_tail, push_head, move_to_head,
  add_session, session_exists, cache_response, node_value, get_cached_response,
}

-- The list and the map have the same sessions, each once, `m_size` of them and no more than the
-- capacity.
pub record IsSound (c : SessionCache) : Type 0 where
  pub distinct : IsDistinct c.order
  pub count : c.m_size ≡ length c.order
  pub bounded : c.m_size ≤ c.m_capacity
  pub keys : (id : ℤ) → session_exists id c ≡ contains id c.order

split_last-last : (x : ℤ) (xs : List ℤ) → contains (split_last x xs).1 (x ∷ xs) ≡ true
unfolding split_last contains
split_last-last x [] = ground (arith, eqb_ℤ_iff x x)
split_last-last x (y ∷ ys) = ground (arith, split_last-last y ys)

split_last-IsDistinct :
    (x : ℤ) (xs : List ℤ)
    → IsDistinct (x ∷ xs)
    → IsDistinct (split_last x xs).0
      × (length (split_last x xs).0 ≡ length xs)
      × ((j : ℤ)
          → contains j (split_last x xs).0
            ≡ (if (split_last x xs).1 == j then false else contains j (x ∷ xs)))
unfolding split_last contains
split_last-IsDistinct x [] h = (tt, refl, λ j. ground (arith, eqb_ℤ_iff x j))
split_last-IsDistinct x (y ∷ ys) h =
    let (distinct, count, members) = split_last-IsDistinct y ys h.1 in
    (
      (ground (arith, members x, h.0), distinct),
      ap suc count,
      λ j. elim (Bool-cases (x == j)) [
        | inl same ↦ elim (Bool-cases ((split_last y ys).1 == j)) [
          | inl last ↦
              let x_is_j = (eqb_ℤ_iff x j).0 same in
              let last_is_j = (eqb_ℤ_iff (split_last y ys).1 j).0 last in
              ground (arith, split_last-last y ys, h.0)
          | inr other ↦ rw (same, other) refl
        ]
        | inr differ ↦ rw differ (members j)
      ],
    )

-- A session at the head, before the cache is cut back to its capacity.
record IsPushable (id : ℤ) (c : SessionCache) : Type 0 where
  distinct : IsDistinct (id ∷ c.order)
  count : c.m_size ≡ length c.order
  bounded : c.m_size ≤ c.m_capacity
  keys : (j : ℤ) → session_exists j c ≡ contains j (id ∷ c.order)

split_last-take : (x : ℤ) (xs : List ℤ) → (split_last x xs).0 ≡ take (length xs) (x ∷ xs)
unfolding split_last
split_last-take x [] = refl
split_last-take x (y ∷ ys) = ap (◌∷◌ x) (split_last-take y ys)

push_head-IsSound : (id : ℤ) (c : SessionCache) → IsPushable id c → IsSound (push_head id c)
unfolding push_head erase_tail session_exists
push_head-IsSound id c h = elim (Bool-cases (ltb c.m_capacity (c.m_size + 1))) [
  | inl full ↦
      let size = h.count in
      let (distinct, count, members) = split_last-IsDistinct id c.order h.distinct in
      rw full (record {
        distinct = distinct;
        count = omega (arith, count, size);
        bounded = omega (arith, h.bounded);
        keys = λ j.
            ground
              (arith, find-erase_key (split_last id c.order).1 j c.m_cache, members j, h.keys j);
      })
  | inr room ↦
      let size = h.count in
      rw room (record {
        distinct = h.distinct;
        count = omega (arith, size);
        bounded = ground arith;
        keys = h.keys;
      })
]

-- The cache keeps the most recent sessions, as many as its capacity allows.
push_head-order :
    (id : ℤ) (c : SessionCache)
    → IsPushable id c
    → ((push_head id c).order ≡ take c.m_capacity (id ∷ c.order))
      × ((push_head id c).m_capacity ≡ c.m_capacity)
unfolding push_head erase_tail
push_head-order id c h =
    let size = h.count in
    let bound = h.bounded in
    elim (Bool-cases (ltb c.m_capacity (c.m_size + 1))) [
      | inl full ↦
          let exact : length c.order ≡ c.m_capacity = ground arith in
          rw (full, split_last-take id c.order, exact) (refl, refl)
      | inr room ↦
          rw room (sym (take_of_length-le c.m_capacity (id ∷ c.order) (ground arith)), refl)
    ]

-- A new session is added to a sound cache with room for one: the cache stays sound and keeps the
-- most recent sessions up to its capacity, the new one first.
pub add_session-IsSound :
    (id : ℤ) (c : SessionCache)
    → IsSound c
    → session_exists id c ≡ false
    → (d : SessionCache) × (add_session id c ≡ ok d)
      × IsSound d
      × (d.order ≡ take c.m_capacity (id ∷ c.order))
      × (d.m_capacity ≡ c.m_capacity)
unfolding add_session session_exists contains
add_session-IsSound id c h fresh =
    let next = record c { m_cache = assign id [] c.m_cache } in
    let pushable : IsPushable id next = record {
      distinct = (rw⁻¹ (h.keys id) fresh, h.distinct);
      count = h.count;
      bounded = h.bounded;
      keys = λ j. ground (arith, find-assign id j [] c.m_cache, h.keys j);
    } in
    let (order, capacity) = push_head-order id next pushable in
    (push_head id next, ground arith, push_head-IsSound id next pushable, order, capacity)

move_to_head-IsPushable :
    (id : ℤ) (c : SessionCache)
    → IsSound c
    → contains id c.order ≡ true
    → IsPushable id (record c { order = remove id c.order; m_size = c.m_size - 1 })
unfolding session_exists contains
move_to_head-IsPushable id c h present =
    let size = h.count in
    record {
      distinct = (
        ground (arith, contains-remove id id c.order, eqb_ℤ_iff id id),
        remove-IsDistinct id c.order h.distinct,
      );
      count = omega (arith, length-remove id c.order h.distinct present);
      bounded = omega (arith, h.bounded);
      keys = λ j. ground (arith, contains-remove j id c.order, h.keys j, eqb_ℤ_iff id j, present);
    }

-- The steps that `CacheResponse` and `NodeValue` share: the session moves to the head.
pub move_to_head_lem :
    (id : ℤ) (c : SessionCache)
    → IsSound c
    → contains id c.order ≡ true
    → IsSound (move_to_head id c)
      × ((move_to_head id c).order ≡ id ∷ remove id c.order)
      × ((move_to_head id c).m_cache ≡ c.m_cache)
unfolding move_to_head push_head
move_to_head_lem id c h present =
    let removed = record c { order = remove id c.order; m_size = c.m_size - 1 } in
    let pushable = move_to_head-IsPushable id c h present in
    let size = pushable.count in
    let old_size = h.count in
    let bound = h.bounded in
    let fewer = length-remove id c.order h.distinct present in
    let room : ltb c.m_capacity (c.m_size - 1 + 1) ≡ false = ground arith in
    (push_head-IsSound id removed pushable, rw room refl, rw room refl)

pub get_cached_response_found :
    (id n : ℤ) (reply : ClientRequestResponse) (c : SessionCache) (val : Responses)
    → find id c.m_cache ≡ some val
    → find n val ≡ some reply
    → (get_cached_response id n c).0 ≡ some reply
unfolding get_cached_response node_value
get_cached_response_found id n reply c val here found =
    rw (get_cached_response, node_value, here, found) refl

-- `CacheResponse` on a session of a sound cache succeeds, evicts nothing and makes the session the
-- most recent one; the cached response is then found, by `GetCachedResponse`.
pub cache_response-IsSound :
    (id n : ℤ) (reply : ClientRequestResponse) (c : SessionCache)
    → IsSound c
    → session_exists id c ≡ true
    → (d : SessionCache) × (cache_response id n reply c ≡ ok d)
      × IsSound d
      × (d.order ≡ id ∷ remove id c.order)
      × ((get_cached_response id n d).0 ≡ some reply)
unfolding cache_response session_exists get_cached_response node_value
cache_response-IsSound id n reply c h there = elim (Option-cases (find id c.m_cache)) [
  | inl gone ↦ absurd (ground arith)
  | inr (val, here) ↦
      let next = record c { m_cache = assign id (assign n reply val) c.m_cache } in
      let sound : IsSound next = record {
        distinct = h.distinct;
        count = h.count;
        bounded = h.bounded;
        keys = λ j.
            ground
              (arith, find-assign id j (assign n reply val) c.m_cache, h.keys j, eqb_ℤ_iff id j);
      } in
      let (result, order, kept) = move_to_head_lem id next sound (rw⁻¹ (h.keys id) there) in
      (
        move_to_head id next,
        rw (cache_response, here) refl,
        result,
        order,
        get_cached_response_found id n reply (move_to_head id next) (assign n reply val)
            (rw kept
              (ground (arith, find-assign id id (assign n reply val) c.m_cache, eqb_ℤ_iff id id)))
            (ground (arith, find-assign n n reply val, eqb_ℤ_iff n n)),
      )
]
