-- ===== src/Cli/Tests.antt =====
-- Command lines.
use maelstromdb.Base.{ℤ, ◌≡◌, ◌↔◌, refl, List, [], ◌∷◌, Text, true, text_eqb}
use maelstromdb.Base.Result.{ok}
use maelstromdb.Protos.{status_ok}
use maelstromdb.Cli.{Scan, split_comma_separated}
use maelstromdb.Cli.Commands.{
  LeaderProxy, registers, prints_success, requests, prints_response, exited, acted, execute,
  write_word, create_word,
}
use maelstromdb.Cli.Split.{join, split_comma_separated-join}

abbrev ab : Text
ab = b'a' ∷ b',' ∷ b'b' ∷ []

split_comma_separated-join_example :
    (split_comma_separated ab ≡ (b'a' ∷ []) ∷ (b'b' ∷ []) ∷ [])
    ↔ (ab ≡ join ((b'a' ∷ []) ∷ (b'b' ∷ []) ∷ []))
split_comma_separated-join_example =
    split_comma_separated-join ab (b'a' ∷ []) ((b'b' ∷ []) ∷ []) (λ h. cc, tt) ((λ h. cc, tt), tt)

-- A trailing comma makes an empty field.
trailing : split_comma_separated (b'a' ∷ b',' ∷ []) ≡ (b'a' ∷ []) ∷ [] ∷ []
unfolding split_comma_separated
trailing = refl

abbrev key_value : Text
key_value = b'k' ∷ b':' ∷ b'v' ∷ []

-- A proxy whose cluster answers every request.
abbrev answering : List Text → LeaderProxy
answering cluster = record {
  get_cluster_configuration = (status_ok, (ℤ.pos 0, []));
  set_cluster_configuration = λ id servers. status_ok;
  register_client = (status_ok, record { status = true; client_id = ℤ.pos 5 });
  client_request = λ id number command.
      (status_ok, record { status = true; response = command; leader_hint = [] });
  client_query = λ text. (status_ok, text);
}

abbrev cluster_flag : Text
cluster_flag = b'-' ∷ b'c' ∷ []

-- `write -c a,b k:v`, of which getopt moves the options to the front.
abbrev write_scan : Text → List Text → Scan
write_scan letters argv = record {
  options = (b'c', ab) ∷ [];
  optind = 3;
  argv = [] ∷ cluster_flag ∷ ab ∷ write_word ∷ key_value ∷ [];
}

writes :
    execute {X = Unit {0}} write_scan answering
      (λ address leads. ok tt)
      ([] ∷ write_word ∷ cluster_flag ∷ ab ∷ key_value ∷ [])
    ≡ ok (
        acted (
          registers
          ∷ prints_success true
          ∷ requests (ℤ.pos 5) (ℤ.pos 1) key_value
          ∷ prints_success true
          ∷ prints_response key_value
          ∷ []))
unfolding execute text_eqb
writes = refl

-- Without an argument after the command, it exits with 1.
abbrev empty_scan : Text → List Text → Scan
empty_scan letters argv = record { options = []; optind = 1; argv = argv }

creates_nothing :
    execute {X = Unit {0}} empty_scan answering (λ address leads. ok tt) ([] ∷ create_word ∷ [])
    ≡ ok (exited 1)
unfolding execute text_eqb
creates_nothing = refl
