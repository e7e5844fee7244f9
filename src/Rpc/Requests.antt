-- ===== src/Rpc/Requests.antt =====
-- leader_proxy.cpp: the requests of a client, each through the redirection.
--
-- The section's parameters are the servers the proxy has stubs for, and what gRPC returns for the
-- n-th call to a server: the reply of the kind of the call, with the status.
use maelstromdb.Base.{ℕ, ℤ, List, [], ◌∷◌, Option, Text, if◌then◌else◌, contains, text_eq}
use maelstromdb.Base.Result.{Result}
use maelstromdb.Protos.{Server, Status}
use maelstromdb.Rpc.Server.{
  ClientCommandId, get_configuration, set_configuration, register_client, client_request,
  client_query, Request, Response,
}
use maelstromdb.Rpc.Proxy.{redirect_to_leader}

-- The loop of `CreateConnections`: an address that comes again replaces its stub.
unfoldable pub create_connections : List Text → List Text → List Text
create_connections [] stubs = stubs
create_connections (address ∷ addresses) stubs =
    create_connections addresses (if contains address stubs then stubs else address ∷ stubs)

module _ (stubs : List Text)
    (reply : ℕ → Text → (id : ClientCommandId) → Request id → Response id × Status) where
  -- `GetConfigurationRPC`, up to the look-up of the stub.
  unfoldable pub get_configuration_rpc : ℕ → Text → Status
  get_configuration_rpc n peer_id = (reply n peer_id get_configuration tt).1

  unfoldable pub set_configuration_rpc : ℤ → List Server → ℕ → Text → Status
  set_configuration_rpc cluster_id new_servers n peer_id =
      (reply n peer_id set_configuration
        (record { old_id = cluster_id; new_servers = new_servers })).1

  unfoldable pub register_client_rpc : ℕ → Text → Status
  register_client_rpc n peer_id = (reply n peer_id register_client tt).1

  unfoldable pub client_request_rpc : ℤ → ℤ → Text → ℕ → Text → Status
  client_request_rpc client_id sequence_num command n peer_id =
      (reply n peer_id client_request
        (record { client_id = client_id; sequence_num = sequence_num; command = command })).1

  unfoldable pub client_query_rpc : Text → ℕ → Text → Status
  client_query_rpc query n peer_id = (reply n peer_id client_query query).1

  unfoldable pub get_cluster_configuration : ℕ → Result (Option (Status × ℕ))
  unfolding get_configuration_rpc
  get_cluster_configuration = redirect_to_leader stubs get_configuration_rpc

  unfoldable pub set_cluster_configuration : ℤ → List Server → ℕ → Result (Option (Status × ℕ))
  unfolding set_configuration_rpc
  set_cluster_configuration cluster_id new_servers =
      redirect_to_leader stubs (set_configuration_rpc cluster_id new_servers)

  unfoldable pub register : ℕ → Result (Option (Status × ℕ))
  unfolding register_client_rpc
  register = redirect_to_leader stubs register_client_rpc

  unfoldable pub request : ℤ → ℤ → Text → ℕ → Result (Option (Status × ℕ))
  unfolding client_request_rpc
  request client_id sequence_num command =
      redirect_to_leader stubs (client_request_rpc client_id sequence_num command)

  unfoldable pub query : Text → ℕ → Result (Option (Status × ℕ))
  unfolding client_query_rpc
  query text = redirect_to_leader stubs (client_query_rpc text)
