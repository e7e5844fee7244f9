-- ===== src/Machine/Store.antt =====
-- Committed writes in the store: what a read returns after `ApplyCommand`.
use maelstromdb.Base.{
  ℤ, ◌≡◌, refl, Text, [], ◌∷◌, ◌++◌, false, some, if◌then◌else◌, arith, contains, find-assign, ◌==◌,
  text_eq, nat_eq, ◌+ℤ◌,
}
use maelstromdb.Base.Result.{ok}
use maelstromdb.Protos.{write, data_set}
use maelstromdb.Machine.{
  StateMachine, read, write_key, apply_command, increment_last_applied, parse_command, split_at,
  data_of,
}

split_at-append :
    (key value : Text)
    → contains b':' key ≡ false
    → split_at b':' (key ++ b':' ∷ value) ≡ some (key, value)
unfolding split_at contains
split_at-append [] value h = refl
split_at-append (b ∷ key) value h = ground (arith, split_at-append key value)

-- A committed write `key:value`, whose key has no colon, is applied: the key then reads as the
-- value, every other key as before, the last applied index goes up by one, and the sessions stay.
pub apply_command-read :
    (key value other : Text) (i t : ℤ) (m : StateMachine)
    → contains b':' key ≡ false
    → (n : StateMachine) × (apply_command i
          (record { term = t; type = write; log_data = data_set (key ++ b':' ∷ value) })
          m
        ≡ ok n)
      × (read other n.m_store ≡ (if key == other then ok value else read other m.m_store))
      × (n.m_last_applied ≡ m.m_last_applied +ℤ ℤ.pos 1)
      × (n.m_sessions ≡ m.m_sessions)
unfolding apply_command increment_last_applied parse_command data_of read write_key
apply_command-read key value other i t m h = (
  record m {
    m_store = write_key key value m.m_store;
    m_last_applied = m.m_last_applied +ℤ ℤ.pos 1;
  },
  rw (apply_command, data_of, parse_command, split_at-append key value h) refl,
  ground (arith, find-assign key other value m.m_store),
  refl,
  refl,
)
