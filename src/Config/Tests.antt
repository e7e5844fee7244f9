-- ===== src/Config/Tests.antt =====
-- A cluster that grows from three servers to two others.
use maelstromdb.Base.{
  ℤ, ◌≡◌, refl, ◌⊎◌, Text, List, [], ◌∷◌, true, false, some, none, contains, find, text_eq,
  text_eqb, text_eqb_iff, int_eq, ◌==◌, arith, if◌then◌else◌, ltb_ℤ, assign,
}
use maelstromdb.Base.Result.{ok, undefined}
use maelstromdb.Protos.{Server, Configuration}
use maelstromdb.Config.{
  ClusterConfiguration, SyncState, initial, joint, stable, sync, is_joint, is_sync, check_quorum,
  count_votes, known_server, insert_new_configuration, truncate_suffix, update_sync_progress,
  sync_progress, sync_complete, diff_entry,
}
use maelstromdb.Config.Current.{
  IsCurrent, insert_new_configuration-IsCurrent, truncate_suffix-IsCurrent,
}
use maelstromdb.Config.History.{Above}
use maelstromdb.Config.Quorum.{
  CommonVoter, has_address, check_quorum_joint, check_quorum_handover, AreMembers,
}
use maelstromdb.Config.Sync.{all_advanced, all_reached, reported, update_sync_progress_lem}

program : Unit {0}
unfolding contains text_eqb is_joint is_sync check_quorum count_votes has_address find known_server
    all_advanced all_reached reported diff_entry assign
program = tt

abbrev a : Text
a = b'a' ∷ []

abbrev b : Text
b = b'b' ∷ []

abbrev c : Text
c = b'c' ∷ []

abbrev d : Text
d = b'd' ∷ []

abbrev server : Text → Server
server t = record { address = t }

abbrev old_servers : List Server
old_servers = server a ∷ server b ∷ server c ∷ []

abbrev new_servers : List Server
new_servers = server c ∷ server d ∷ []

abbrev three : Configuration
three = record { prev_configuration = old_servers; next_configuration = [] }

abbrev both : Configuration
both = record { prev_configuration = old_servers; next_configuration = new_servers }

abbrev two : Configuration
two = record { prev_configuration = new_servers; next_configuration = [] }

abbrev at_three : ClusterConfiguration
at_three = record initial {
  m_id = ℤ.pos 4;
  m_state = stable;
  m_current_configuration = three;
  m_addresses = a ∷ b ∷ c ∷ [];
  m_configurations = (ℤ.pos 4, three) ∷ [];
}

abbrev at_both : ClusterConfiguration
at_both = record initial {
  m_id = ℤ.pos 7;
  m_state = joint;
  m_current_configuration = both;
  m_addresses = a ∷ b ∷ c ∷ d ∷ [];
  m_configurations = (ℤ.pos 7, both) ∷ (ℤ.pos 4, three) ∷ [];
}

abbrev at_two : ClusterConfiguration
at_two = record initial { m_id = ℤ.pos 9; m_state = stable; m_current_configuration = two }

at_both-IsCurrent : IsCurrent at_both
at_both-IsCurrent = record { descending = ((omega arith, tt), (tt, tt)); head = (refl, refl) }

check_quorum_joint_example :
    CommonVoter old_servers (a ∷ c ∷ d ∷ []) (b ∷ c ∷ d ∷ [])
    × CommonVoter new_servers (a ∷ c ∷ d ∷ []) (b ∷ c ∷ d ∷ [])
unfolding program
check_quorum_joint_example =
    check_quorum_joint (a ∷ c ∷ d ∷ []) (b ∷ c ∷ d ∷ []) at_both refl refl refl

ab-AreMembers : AreMembers (a ∷ b ∷ []) old_servers
unfolding program
ab-AreMembers t h = ground (arith, text_eqb_iff a t, text_eqb_iff b t)

bc-AreMembers : AreMembers (b ∷ c ∷ []) old_servers
unfolding program
bc-AreMembers t h = ground (arith, text_eqb_iff c t, text_eqb_iff b t)

cd-AreMembers : AreMembers (c ∷ d ∷ []) new_servers
unfolding program
cd-AreMembers t h = ground (arith, text_eqb_iff c t, text_eqb_iff d t)

check_quorum_handover_example :
    CommonVoter old_servers (a ∷ c ∷ d ∷ []) (a ∷ b ∷ [])
    × CommonVoter new_servers (a ∷ c ∷ d ∷ []) (c ∷ d ∷ [])
unfolding program
check_quorum_handover_example =
    check_quorum_handover (a ∷ c ∷ d ∷ []) (a ∷ b ∷ []) (c ∷ d ∷ []) at_both at_three at_two refl
      refl refl refl refl (refl, (refl, tt)) (refl, (refl, tt)) ab-AreMembers cd-AreMembers refl
      refl refl

abbrev progress : SyncState
progress = record {
  sync_index = ℤ.pos 5;
  done = false;
  progress = false;
  state_diff = (d, (ℤ.pos 0, ℤ.pos 0)) ∷ [];
  sync_addresses = d ∷ [];
}

update_sync_progress_lem_example :
    (e : ClusterConfiguration) × (update_sync_progress d
        (ℤ.pos 6)
        (record at_three { m_state = sync; m_log_sync = some progress })
      ≡ ok (true, e))
    × (sync_progress e ≡ ok true)
    × (sync_complete e ≡ ok true)
unfolding program
update_sync_progress_lem_example =
    update_sync_progress_lem d (ℤ.pos 6)
      (record at_three { m_state = sync; m_log_sync = some progress }) progress refl refl

insert_new_configuration-IsCurrent_example :
    (e : ClusterConfiguration) × (insert_new_configuration (ℤ.pos 9) two at_both ≡ ok e)
    × IsCurrent e
    × ((j : ℤ)
        → find j e.m_configurations
          ≡ (if ℤ.pos 9 == j then some two else find j at_both.m_configurations))
unfolding program
insert_new_configuration-IsCurrent_example =
    insert_new_configuration-IsCurrent (ℤ.pos 9) two at_both at_both-IsCurrent (λ h. cc)

truncate_suffix-IsCurrent_example :
    (Above (ℤ.pos 5) at_both.m_configurations × (truncate_suffix (ℤ.pos 5) at_both ≡ undefined))
    ⊎ ((¬ Above (ℤ.pos 5) at_both.m_configurations)
        × ((e : ClusterConfiguration) × (truncate_suffix (ℤ.pos 5) at_both ≡ ok e)
            × IsCurrent e
            × ((j : ℤ)
                → find j e.m_configurations
                  ≡ (if ltb_ℤ (ℤ.pos 5) j then none else find j at_both.m_configurations))))
truncate_suffix-IsCurrent_example = truncate_suffix-IsCurrent (ℤ.pos 5) at_both at_both-IsCurrent
