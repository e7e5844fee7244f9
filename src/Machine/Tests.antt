-- ===== src/Machine/Tests.antt =====
-- A committed write in a store.
use maelstromdb.Base.{ℤ, ◌≡◌, refl, Text, [], ◌∷◌, ◌++◌, contains, nat_eq, ◌+ℤ◌, text_eq, text_eqb}
use maelstromdb.Base.Result.{ok}
use maelstromdb.Protos.{write, data_set}
use maelstromdb.Session.{new_cache}
use maelstromdb.Machine.{StateMachine, read, apply_command}
use maelstromdb.Machine.Store.{apply_command-read}

abbrev color : Text
color = b'c' ∷ b'o' ∷ []

abbrev red : Text
red = b'r' ∷ b'e' ∷ b'd' ∷ []

abbrev machine : StateMachine
machine = record {
  m_last_applied = ℤ.pos 4;
  m_sessions = new_cache 1000;
  m_store = (color, color) ∷ [];
}

apply_command-read_example :
    (n : StateMachine) × (apply_command
        (ℤ.pos 5)
        (record { term = ℤ.pos 1; type = write; log_data = data_set (color ++ b':' ∷ red) })
        machine
      ≡ ok n)
    × (read color n.m_store ≡ ok red)
    × (n.m_last_applied ≡ ℤ.pos 5)
    × (n.m_sessions ≡ new_cache 1000)
unfolding contains text_eqb ◌+ℤ◌
apply_command-read_example = apply_command-read color red color (ℤ.pos 5) (ℤ.pos 1) machine refl
