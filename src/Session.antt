-- ===== src/Session.antt =====
-- src/raft/session_cache.{h,cpp}: the sessions of clients in a cache that evicts the least recently
-- used one. The doubly linked list between `m_head` and `m_tail` is the list `order` of the ids of
-- its nodes, from `m_head->next` to `m_tail->prev`.
mod Tests
pub mod Eviction
pub mod Cached
use maelstromdb.Base.{
  ℕ, ℤ, ◌+◌, ◌-◌, Text, List, [], ◌∷◌, Bool, true, false, Option, none, some, if◌then◌else◌, ltb,
  find, assign, erase_key, remove, int_eq,
}
use maelstromdb.Base.Result.{Result, ok, throw, out_of_range}

-- raft.proto: ClientRequest.Response
pub record ClientRequestResponse : Type 0 where
  pub status : Bool
  pub response : Text
  pub leader_hint : Text

-- The field `val` of a node: the response by sequence number.
abbrev pub Responses : Type 0
Responses = List (ℤ × ClientRequestResponse)

-- `ClientRequestLRUCache`
pub record SessionCache : Type 0 where
  pub m_capacity : ℕ
  pub m_size : ℕ
  pub m_cache : List (ℤ × Responses)
  pub order : List ℤ

unfoldable pub new_cache : ℕ → SessionCache
new_cache capacity = record { m_capacity = capacity; m_size = 0; m_cache = []; order = [] }

-- The list without its last element, and that element.
unfoldable pub split_last : ℤ → List ℤ → List ℤ × ℤ
split_last x [] = ([], x)
split_last x (y ∷ ys) = let (front, last) = split_last y ys in (x ∷ front, last)

-- `EraseTail`, on a list of nodes that is not empty.
unfoldable pub erase_tail : ℤ → List ℤ → SessionCache → SessionCache
erase_tail x xs c =
    let (front, last) = split_last x xs in
    record c { order = front; m_size = c.m_size - 1; m_cache = erase_key last c.m_cache }

-- `PushHead`
unfoldable pub push_head : ℤ → SessionCache → SessionCache
push_head id c =
    let c' = record c { order = id ∷ c.order; m_size = c.m_size + 1 } in
    if ltb c.m_capacity (c.m_size + 1) then erase_tail id c.order c' else c'

-- The node is taken out of the list, and put at its head.
unfoldable pub move_to_head : ℤ → SessionCache → SessionCache
move_to_head id c = push_head id (record c { order = remove id c.order; m_size = c.m_size - 1 })

-- `CreateNode`, and `AddSession`, which calls it.
unfoldable pub add_session : ℤ → SessionCache → Result SessionCache
add_session client_id c = elim (find client_id c.m_cache) [
  | some _ ↦ throw out_of_range
  | none ↦ ok (push_head client_id (record c { m_cache = assign client_id [] c.m_cache }))
]

-- `NodeValue`
unfoldable pub node_value : ℤ → ℤ → SessionCache → Result (ClientRequestResponse × SessionCache)
node_value client_id sequence_num c = elim (find client_id c.m_cache) [
  | none ↦ throw out_of_range
  | some val ↦ elim (find sequence_num val) [
    | none ↦ throw out_of_range
    | some reply ↦ ok (reply, move_to_head client_id c)
  ]
]

-- `UpdateNode`, and `CacheResponse`, which calls it.
unfoldable pub cache_response : ℤ → ℤ → ClientRequestResponse → SessionCache → Result SessionCache
cache_response client_id sequence_num reply c = elim (find client_id c.m_cache) [
  | none ↦ throw out_of_range
  | some val ↦ ok (
      move_to_head client_id
        (record c { m_cache = assign client_id (assign sequence_num reply val) c.m_cache }))
]

-- `GetCachedResponse`: `none` is the result `false`.
unfoldable pub get_cached_response :
    ℤ → ℤ → SessionCache → Option ClientRequestResponse × SessionCache
unfolding node_value
get_cached_response client_id sequence_num c = elim (node_value client_id sequence_num c) [
  | ok r ↦ (some r.0, r.1)
  | _ ↦ (none, c)
]

-- `SessionExists`
unfoldable pub session_exists : ℤ → SessionCache → Bool
session_exists client_id c = elim (find client_id c.m_cache) [ none ↦ false | some _ ↦ true ]
