-- ===== src/Cli.antt =====
-- src/cli/: the commands. What getopt makes of the arguments, and what the leader proxy returns,
-- are arguments. `exit` and what a command prints and asks for are its outcome.
mod Tests
pub mod Split
pub mod Commands
use maelstromdb.Base.{
  ℕ, ◌+◌, List, [], ◌∷◌, ◌++◌, Bool, true, none, some, if◌then◌else◌, eqb, Text, length, get_elem?,
}
use maelstromdb.Base.Result.{Result, ok, undefined, ◌>>=◌}

-- The fields that `getline` reads up to each comma, the first of which starts with `curr`. The
-- stream is good as long as a comma has been read.
unfoldable pub read_fields : Text → Text → List Text
read_fields curr [] = curr ∷ []
read_fields curr (c ∷ cs) =
    let next = read_fields [] cs in
    let more = read_fields (curr ++ (c ∷ [])) cs in if eqb c b',' then curr ∷ next else more

-- `SplitCommaSeparated`
unfoldable pub split_comma_separated : Text → List Text
unfolding read_fields
split_comma_separated s = read_fields [] s

-- What `getopt_long` leaves: the options up to the -1, each with its argument, then `optind` and
-- the arguments as it has ordered them.
pub record Scan : Type 0 where
  pub options : List (ℕ × Text)
  pub optind : ℕ
  pub argv : List Text

-- `exit(code)`, or the rest of the command.
pub data Parsed (X : Type 0) : Type 0 where
  exits : ℕ → Parsed X
  proceeds : X → Parsed X

-- The loop of `Create::Parse`.
unfoldable pub leader_option : List (ℕ × Text) → Bool → Parsed Bool
leader_option [] initialize_as_leader = proceeds initialize_as_leader
leader_option ((c, optarg) ∷ options) initialize_as_leader =
    let rest = leader_option options true in
    if eqb c b'l' then rest else if eqb c b'h' then exits 0 else exits 1

-- The loop of `Parse` of the other commands.
unfoldable pub cluster_option : List (ℕ × Text) → List Text → Parsed (List Text)
unfolding split_comma_separated
cluster_option [] cluster = proceeds cluster
cluster_option ((c, optarg) ∷ options) cluster =
    let rest = cluster_option options (split_comma_separated optarg) in
    if eqb c b'c' then rest else if eqb c b'h' then exits 0 else exits 1

-- The end of `Parse`: `optind++`, and the argument there; past the arguments it is undefined.
unfoldable pub operand : Scan → Result (Parsed Text)
operand scan =
    let optind = scan.optind + 1 in
    if eqb optind (length scan.argv) then ok (exits 1) else elim (get_elem? scan.argv optind) [
      | none ↦ undefined
      | some argument ↦ ok (proceeds argument)
    ]

-- What `Parse` has after the loop over the options.
unfoldable pub arguments : {X : Type 0} → Parsed X → Scan → Result (Parsed (X × Text))
unfolding operand
arguments (exits code) scan = ok (exits code)
arguments (proceeds x) scan = do
  argument ← operand scan
  ok (elim argument [ exits code ↦ exits code | proceeds text ↦ proceeds (x, text) ])
