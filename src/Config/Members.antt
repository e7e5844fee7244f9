-- ===== src/Config/Members.antt =====
-- Who is a member: `KnownServer` against `ServerAddresses`, and the sync state that both read.
use maelstromdb.Base.{
  ℤ, ◌≡◌, refl, Text, List, [], ◌∷◌, false, ◌||◌, some, if◌then◌else◌, inl, inr, Bool-cases,
  Option-cases, arith, contains, contains-insert_set, text_eq, text_eqb_iff, insert_set,
}
use maelstromdb.Base.Result.{ok, ◌>>=◌}
use maelstromdb.Protos.{Server, Configuration}
use maelstromdb.Config.{
  ClusterConfiguration, sync, set_configuration, insert_addresses, is_sync, server_addresses,
  known_server, insert_texts, start_log_sync, cancel_log_sync, unknown_servers, new_sync_state,
  log_sync,
}
use maelstromdb.Config.Quorum.{has_address}

contains-insert_texts :
    (t : Text) (ts xs : List Text)
    → contains t (insert_texts ts xs) ≡ (contains t ts || contains t xs)
unfolding insert_texts contains
contains-insert_texts t [] xs = refl
contains-insert_texts t (a ∷ ts) xs =
    ground (arith, contains-insert_texts t ts (insert_set a xs), contains-insert_set t a xs)

contains-insert_addresses :
    (t : Text) (servers : List Server) (xs : List Text)
    → contains t (insert_addresses servers xs) ≡ (has_address t servers || contains t xs)
unfolding insert_addresses has_address
contains-insert_addresses t [] xs = refl
contains-insert_addresses t (s ∷ servers) xs = ground (
  arith,
  contains-insert_addresses t servers (insert_set s.address xs),
  contains-insert_set t s.address xs,
)

-- `SetConfiguration` makes known exactly the old and the new servers of the configuration.
set_configuration_members :
    (t : Text) (id : ℤ) (conf : Configuration) (c : ClusterConfiguration)
    → known_server t (set_configuration id conf c)
      ≡ ok (has_address t conf.prev_configuration || has_address t conf.next_configuration)
unfolding set_configuration known_server contains
set_configuration_members t id conf c = ground (
  arith,
  contains-insert_addresses t conf.next_configuration (insert_addresses conf.prev_configuration []),
  contains-insert_addresses t conf.prev_configuration [],
)

-- `KnownServer` and `ServerAddresses` agree on every address, and both are defined or neither is.
known_server-server_addresses :
    (t : Text) (c : ClusterConfiguration)
    → known_server t c ≡ (do addresses ← server_addresses c; ok (contains t addresses))
unfolding known_server server_addresses log_sync
known_server-server_addresses t c = elim (Bool-cases (is_sync c.m_state)) [
  | inl syncing ↦ elim (Option-cases c.m_log_sync) [
    | inl gone ↦ rw (syncing, gone)
    | inr (s, here) ↦ ground (arith, contains-insert_texts t s.sync_addresses c.m_addresses)
  ]
  | inr quiet ↦ rw quiet
]

unknown_servers_members :
    (t : Text) (ns : List Text) (c : ClusterConfiguration)
    → is_sync c.m_state ≡ false
    → (us : List Text) × (unknown_servers ns c ≡ ok us)
      × ((contains t us || contains t c.m_addresses) ≡ (contains t ns || contains t c.m_addresses))
unfolding unknown_servers known_server contains
unknown_servers_members t [] c q = ([], refl, refl)
unknown_servers_members t (n ∷ ns) c q =
    let (us, same, cover) = unknown_servers_members t ns c q in
    (
      if contains n c.m_addresses then us else n ∷ us,
      ground arith,
      ground (arith, text_eqb_iff n t),
    )

-- Outside state SYNC, `StartLogSync` succeeds, enters state SYNC and makes known exactly the
-- servers that were known and the new ones; `CancelLogSync` then takes the new ones away again.
start_log_sync_members :
    (t : Text) (commit_index : ℤ) (ns : List Text) (c : ClusterConfiguration)
    → is_sync c.m_state ≡ false
    → (d : ClusterConfiguration) × (start_log_sync commit_index ns c ≡ ok d)
      × (d.m_state ≡ sync)
      × (known_server t d ≡ ok (contains t c.m_addresses || contains t ns))
      × (known_server t (cancel_log_sync d) ≡ known_server t c)
unfolding start_log_sync known_server cancel_log_sync new_sync_state contains
start_log_sync_members t ci ns c q =
    let (us, same, cover) = unknown_servers_members t ns c q in
    (
      record c { m_log_sync = some (new_sync_state ci us); m_state = sync },
      rw same,
      refl,
      ground (arith, contains-insert_texts t us []),
      ground arith,
    )
