-- ===== src/Cli/Commands.antt =====
-- The commands of src/cli/: create.cpp, write.cpp, query.cpp, reconfigure.cpp and maelstromcli.cpp.
use maelstromdb.Base.{
  ℕ, ℤ, List, [], ◌∷◌, Bool, false, none, some, if◌then◌else◌, Text, get_elem?, map, ◌==◌, text_eq,
}
use maelstromdb.Base.Result.{Result, ok, undefined, ◌>>=◌}
use maelstromdb.Protos.{Server, Status}
use maelstromdb.Consensus.Clients.{RegisterClientResponse}
use maelstromdb.Session.{ClientRequestResponse}
use maelstromdb.Rpc.Proxy.{is_ok}
use maelstromdb.Cli.{
  Scan, Parsed, exits, proceeds, leader_option, cluster_option, arguments, split_comma_separated,
}

-- What the proxy returns for a request, where it returns: the status and the reply.
pub record LeaderProxy : Type 0 where
  pub get_cluster_configuration : Status × (ℤ × List Server)
  pub set_cluster_configuration : ℤ → List Server → Status
  pub register_client : Status × RegisterClientResponse
  pub client_request : ℤ → ℤ → Text → Status × ClientRequestResponse
  pub client_query : Text → Status × Text

-- What a command asks of the proxy and what it prints, in order.
pub data Act : Type 0 where
  registers : Act
  requests : ℤ → ℤ → Text → Act
  queries : Text → Act
  gets_configuration : Act
  sets_configuration : ℤ → List Server → Act
  prints_success : Bool → Act
  prints_response : Text → Act
  prints_error : Status → Act
  prints_servers : List Text → Act

-- `exit(code)`, the acts of a command that returns, or the node that it starts.
pub data Outcome (X : Type 0) : Type 0 where
  exited : ℕ → Outcome X
  acted : List Act → Outcome X
  started : X → Outcome X

-- The last lines of `Execute`.
unfoldable pub print_reply : Status → Text → List Act
unfolding is_ok
print_reply status response =
    prints_success (is_ok status)
    ∷ (if is_ok status then prints_response response else prints_error status)
    ∷ []

-- `Query::Execute`
unfoldable pub execute_query : LeaderProxy → Text → List Act
unfolding print_reply
execute_query proxy command =
    let (status, response) = proxy.client_query command in
    queries command ∷ print_reply status response

-- `Write::Execute`
unfoldable pub execute_write : LeaderProxy → Text → List Act
unfolding print_reply
execute_write proxy command =
    let (created, session) = proxy.register_client in
    let (status, reply) = proxy.client_request session.client_id (ℤ.pos 1) command in
    registers
    ∷ prints_success (is_ok created)
    ∷ (if is_ok created
        then requests session.client_id (ℤ.pos 1) command ∷ print_reply status reply.response
        else [])

-- `Reconfigure::SetConfiguration`
unfoldable pub execute_reconfigure : LeaderProxy → List Text → List Act
execute_reconfigure proxy new_addresses =
    let (_, (id, servers)) = proxy.get_cluster_configuration in
    let new_servers = map (λ address. record { address = address }) new_addresses in
    let status = proxy.set_cluster_configuration id new_servers in
    gets_configuration
    ∷ prints_servers (map (λ server. server.address) servers)
    ∷ prints_servers new_addresses
    ∷ sets_configuration id new_servers
    ∷ prints_success (is_ok status)
    ∷ (if is_ok status then [] else prints_error status ∷ [])

-- A command whose arguments are parsed.
unfoldable pub run :
    {X : Type 0} {Y : Type 0}
    → (X → Text → Result (Outcome Y))
    → Parsed (X × Text)
    → Result (Outcome Y)
run execute (exits code) = ok (exited code)
run execute (proceeds (x, argument)) = execute x argument

abbrev pub create_word : Text
create_word = b'c' ∷ b'r' ∷ b'e' ∷ b'a' ∷ b't' ∷ b'e' ∷ []

abbrev pub write_word : Text
write_word = b'w' ∷ b'r' ∷ b'i' ∷ b't' ∷ b'e' ∷ []

abbrev query_word : Text
query_word = b'q' ∷ b'u' ∷ b'e' ∷ b'r' ∷ b'y' ∷ []

abbrev reconfigure_word : Text
reconfigure_word = b'r' ∷ b'e' ∷ b'c' ∷ b'o' ∷ b'n' ∷ b'f' ∷ b'i' ∷ b'g' ∷ b'u' ∷ b'r' ∷ b'e' ∷ []

-- The section's parameters are getopt, with the letters of the options, the proxy for addresses,
-- and `InitializeNode`.
module _ {X : Type 0} (getopt : Text → List Text → Scan) (proxy : List Text → LeaderProxy)
    (initialize_node : Text → Bool → Result X) where
  -- `Create::Parse`
  unfoldable pub create : List Text → Result (Outcome X)
  unfolding leader_option arguments run
  create argv = do
    let scan = getopt (b'c' ∷ b':' ∷ b'l' ∷ b'h' ∷ []) argv
    parsed ← arguments (leader_option scan.options false) scan
    run (λ leader address. (do node ← initialize_node address leader; ok (started node))) parsed

  -- `Parse` of the other commands.
  unfoldable pub with_cluster : (List Text → Text → List Act) → List Text → Result (Outcome X)
  unfolding cluster_option arguments run
  with_cluster execute argv = do
    let scan = getopt (b'c' ∷ b':' ∷ b'h' ∷ []) argv
    parsed ← arguments (cluster_option scan.options []) scan
    run (λ cluster argument. ok (acted (execute cluster argument))) parsed

  unfoldable pub write : List Text → Result (Outcome X)
  unfolding with_cluster execute_write
  write = with_cluster (λ cluster command. execute_write (proxy cluster) command)

  unfoldable pub query : List Text → Result (Outcome X)
  unfolding with_cluster execute_query
  query = with_cluster (λ cluster command. execute_query (proxy cluster) command)

  unfoldable pub reconfigure : List Text → Result (Outcome X)
  unfolding with_cluster execute_reconfigure split_comma_separated
  reconfigure = with_cluster (λ old_addresses argument.
      execute_reconfigure (proxy old_addresses) (split_comma_separated argument))

  -- `MaelstromCLI::Execute`: without a command, it prints so and reads the missing argument.
  unfoldable pub execute : List Text → Result (Outcome X)
  unfolding create write query reconfigure
  execute argv = elim (get_elem? argv 1) [
    | none ↦ undefined
    | some command ↦
        if command == create_word
        then create argv
        else if command == reconfigure_word
        then reconfigure argv
        else if command == query_word
        then query argv
        else if command == write_word
        then write argv
        else ok (acted [])
  ]
