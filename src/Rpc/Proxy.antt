-- ===== src/Rpc/Proxy.antt =====
-- leader_proxy.{h,cpp}: a client's requests, sent to one server after another.
--
-- The section's parameters are the servers the proxy has stubs for, in the order of its map, and
-- what gRPC answers to the n-th call.
use maelstromdb.Base.{
  ℕ, zero, suc, ◌+◌, List, [], ◌∷◌, Bool, true, false, Option, none, some, not, ◌&&◌, if◌then◌else◌,
  Text, text_eq, ◌==◌, contains,
}
use maelstromdb.Base.Result.{Result, ok, undefined, ◌>>=◌}
use maelstromdb.Protos.{
  Status, status_ok, status_cancelled, status_error, ErrorCode, not_leader, retry,
}
pub mod Redirects

-- `status.ok()`
unfoldable pub is_ok : Status → Bool
is_ok status_ok = true
is_ok _ = false

-- The details of a status hold the code RETRY.
unfoldable pub is_retry : Status → Bool
is_retry (status_error retry hint) = true
is_retry _ = false

-- The hint of a status whose code is NOT_LEADER, which is also the default.
unfoldable pub leader_hint : Status → Text
leader_hint (status_error not_leader hint) = hint
leader_hint _ = []

module _ (stubs : List Text) (answer : ℕ → Text → Status) where
  -- A call of the RPC, with the number of calls before it: without a stub, it is made on a null
  -- pointer.
  unfoldable pub call : Text → ℕ → Result (Status × ℕ)
  call address n = if contains address stubs then ok (answer n address, n + 1) else undefined

  -- The loop of `Retry`, on fuel; `none` when it runs out.
  unfoldable pub retry_call : ℕ → Text → ℕ → Result (Option (Status × ℕ))
  unfolding call is_ok is_retry
  retry_call zero address n = ok none
  retry_call (suc fuel) address n = do
    (status, after) ← call address n
    let again = retry_call fuel address after
    if is_ok status
        then ok (some (status, after))
        else if is_retry status
        then again
        else ok (some (status, after))

  -- The loop of `RedirectToLeader` over the servers that are left, with the servers visited, the
  -- status so far and the number of calls.
  unfoldable pub redirect_from :
      ℕ → List Text → List Text → Status → ℕ → Result (Option (Status × ℕ))
  unfolding retry_call leader_hint
  redirect_from fuel [] visited status n = ok (some (status, n))
  redirect_from fuel (peer ∷ peers) visited status n =
      if contains peer visited then redirect_from fuel peers visited status n else (do
        tried ← retry_call fuel peer n
        elim tried [
          | none ↦ ok none
          | some (first, after) ↦
              let hint = leader_hint first in
              if is_ok first
              then ok (some (first, after))
              else if not (hint == []) && not (contains hint (peer ∷ visited))
              then (do
                hinted ← retry_call fuel hint after
                elim hinted [
                  | none ↦ ok none
                  | some (second, later) ↦
                      redirect_from fuel peers (hint ∷ peer ∷ visited) second later
                ])
              else redirect_from fuel peers (peer ∷ visited) first after
        ])

  -- `RedirectToLeader`: the status is OK before any call.
  unfoldable pub redirect_to_leader : ℕ → Result (Option (Status × ℕ))
  unfolding redirect_from
  redirect_to_leader fuel = redirect_from fuel stubs [] status_ok 0
