-- ===== src/Consensus/Merged.antt =====
-- The log of a follower after the merge, and the configurations that it follows.
use maelstromdb.Base.{
  ℕ, ◌≡◌, refl, ◌≢◌, inl, inr, ℤ, ◌+ℤ◌, ◌≤ℤ◌, List, [], ◌∷◌, ◌++◌, append-nil, false, Bool-cases,
  Option, none, some, if◌then◌else◌, arith, eqb, ltb_ℤ, length, find, int_eq, text_eq, ◌==◌,
  eqb_ℤ_iff,
}
use maelstromdb.Base.Result.{ok}
use maelstromdb.Base.SortedMap
use maelstromdb.Protos.{LogEntry, Configuration, has_configuration, configuration_of}
use maelstromdb.Config
use maelstromdb.Config.{ClusterConfiguration, ConfigurationState, is_sync}
use maelstromdb.Consensus.State.{Consensus, Effect, create_connections, connect, emit}
use maelstromdb.Consensus.RaftLog
use maelstromdb.Consensus.Roles.{append_entries, insert_configurations}
use maelstromdb.Consensus.Following.{merge_entries, truncate_at}
use maelstromdb.Consensus.Merge.{overlay, cut, IsFrom, find_conflict-overlay}

-- A configuration of the map stands at the index or before it.
unfoldable pub HasEarlier : ℤ → List (ℤ × Configuration) → Type 0
HasEarlier i m = (id : ℤ) × (conf : Configuration) × (find id m ≡ some conf) × (id ≤ℤ i)

-- The configuration follows its map outside a log sync.
record Followed (c : ClusterConfiguration) : Type 0 where
  result : ClusterConfiguration
  follows : Config.follow_last c ≡ ok result
  quiet : is_sync result.m_state ≡ false

follow_last_lem :
    (c : ClusterConfiguration) (m : List (ℤ × Configuration))
    → c.m_configurations ≡ m
    → is_sync c.m_state ≡ false
    → m ≢ []
    → Followed c
unfolding Config.follow_last Config.set_configuration is_sync
follow_last_lem c [] same q some_left = absurd (some_left refl)
follow_last_lem c ((k, conf) ∷ m) same q some_left = elim (Bool-cases (c.m_id == k)) [
  | inl current ↦ record { result = c; follows = rw (same, current) refl; quiet = q }
  | inr other ↦ record {
    result = Config.set_configuration k conf c;
    follows = rw (same, other) refl;
    quiet = ground arith;
  }
]

insert-nonempty :
    (id : ℤ) (conf : Configuration) (m : List (ℤ × Configuration))
    → SortedMap.insert ltb_ℤ id conf m ≢ []
unfolding SortedMap.insert
insert-nonempty id conf [] = λ h. cc
insert-nonempty id conf ((j, w) ∷ m) = λ h. ground arith

erase_above-nonempty :
    (i : ℤ) (m : List (ℤ × Configuration)) → HasEarlier i m → SortedMap.erase_above ltb_ℤ i m ≢ []
unfolding SortedMap.erase_above HasEarlier find
erase_above-nonempty i [] (id, conf, found, le) = λ h. cc
erase_above-nonempty i ((j, w) ∷ m) (id, conf, found, le) = elim (Bool-cases (ltb_ℤ i j)) [
  | inl above ↦ rw above (erase_above-nonempty i m (id, conf, ground (arith, eqb_ℤ_iff j id), le))
  | inr kept ↦ rw kept (λ h. cc)
]

-- Only the configuration and the effects are new.
Configures : Consensus → Consensus → Type 0
Configures s t =
    (c : ClusterConfiguration) × (es : List Effect) × (t
      ≡ record s { m_configuration = c; effects = es })
    × (is_sync c.m_state ≡ false)

insert_configurations-Configures :
    (i : ℤ) (es : List LogEntry) (s : Consensus)
    → is_sync s.m_configuration.m_state ≡ false
    → (t : Consensus) × (insert_configurations i es s ≡ ok t) × Configures s t
unfolding insert_configurations Configures connect emit Config.insert_new_configuration
    Config.server_addresses
insert_configurations-Configures i [] s q = (s, refl, (s.m_configuration, s.effects, refl, q))
insert_configurations-Configures i (e ∷ es) s q = elim (Bool-cases (has_configuration e)) [
  | inl carries ↦
      let c = s.m_configuration in
      let inserted = SortedMap.insert ltb_ℤ i (configuration_of e) c.m_configurations in
      let followed =
        follow_last_lem (record c { m_configurations = inserted }) inserted refl q
          (insert-nonempty i (configuration_of e) c.m_configurations) in
      let next =
        emit (create_connections followed.result.m_addresses)
          (record s { m_configuration = followed.result }) in
      let (t, run, (d, effects, same, quiet)) =
        insert_configurations-Configures (i +ℤ ℤ.pos 1) es next followed.quiet in
      (t, rw (carries, followed.follows, followed.quiet) run, (d, effects, same, quiet))
  | inr plain ↦ rw plain (insert_configurations-Configures (i +ℤ ℤ.pos 1) es s q)
]

append_entries-Configures :
    (es : List LogEntry) (s : Consensus)
    → is_sync s.m_configuration.m_state ≡ false
    → (c : ClusterConfiguration) × (effects : List Effect) × (append_entries es s
        ≡ ok (record s { m_configuration = c; effects = effects; log = RaftLog.append es s.log }))
unfolding append_entries Configures
append_entries-Configures es s q =
    let (t, run, (c, effects, same, quiet)) =
      insert_configurations-Configures (RaftLog.size s.log) es
        (record s { log = RaftLog.append es s.log }) q in
    (c, effects, rw⁻¹ same run)

truncate_at-Configures :
    (conflict : Option ℤ) (i : ℕ) (s : Consensus)
    → is_sync s.m_configuration.m_state ≡ false
    → HasEarlier (ℤ.pos i) s.m_configuration.m_configurations
    → IsFrom i conflict
    → (c : ClusterConfiguration) × (truncate_at conflict s
        ≡ ok (record s { m_configuration = c; log = cut conflict s.log }))
      × (is_sync c.m_state ≡ false)
unfolding truncate_at cut IsFrom HasEarlier Config.truncate_suffix
truncate_at-Configures none i s q h from = (s.m_configuration, refl, q)
truncate_at-Configures (some j) i s q (id, conf, found, le) (k, same, above) =
    let c = s.m_configuration in
    let left = SortedMap.erase_above ltb_ℤ j c.m_configurations in
    let followed =
      follow_last_lem (record c { m_configurations = left }) left refl q
        (erase_above-nonempty j c.m_configurations (id, conf, found, rw same (omega arith))) in
    (followed.result, rw followed.follows refl, followed.quiet)

append_left :
    (left : List LogEntry) (t : Consensus)
    → is_sync t.m_configuration.m_state ≡ false
    → (c : ClusterConfiguration) × (effects : List Effect) × ((if eqb (length left) 0
          then ok t
          else append_entries left t)
        ≡ ok (record t { m_configuration = c; effects = effects; log = RaftLog.append left t.log }))
unfolding RaftLog.append
append_left [] t q = (t.m_configuration, t.effects, rw (append-nil t.log.log_entries) refl)
append_left (e ∷ es) t q =
    let (c, effects, run) = append_entries-Configures (e ∷ es) t q in
    (c, effects, rw run (ground arith))

cut_lem :
    (conflict : Option ℤ) (l : RaftLog.RaftLog)
    → cut conflict l ≡ record l { log_entries = (cut conflict l).log_entries }
unfolding cut RaftLog.truncate
cut_lem none l = refl
cut_lem (some (ℤ.pos i)) l = refl
cut_lem (some (ℤ.negsuc i)) l = refl

-- Outside a log sync, where a configuration stands at the index of the first entry or before it,
-- the merge of entries succeeds; it makes the log what it was before the index, followed by the
-- overlay of the request's entries on the rest, and changes nothing but the log, the configuration
-- and the messages.
pub merge_entries-overlay :
    (before present es : List LogEntry) (s : Consensus)
    → s.log.log_entries ≡ before ++ present
    → is_sync s.m_configuration.m_state ≡ false
    → HasEarlier (ℤ.pos (length before)) s.m_configuration.m_configurations
    → (c : ClusterConfiguration) × (effects : List Effect) × (merge_entries
          (ℤ.pos (length before))
          es
          s
        ≡ ok (record s {
          m_configuration = c;
          effects = effects;
          log = record s.log { log_entries = before ++ overlay present es };
        }))
unfolding merge_entries RaftLog.append
merge_entries-overlay before present es s same q earlier =
    let (conflict, left, found, made, from) = find_conflict-overlay before present es s.log same in
    let (c, cut_at, quiet) = truncate_at-Configures conflict (length before) s q earlier from in
    let (d, effects, appended) =
      append_left left (record s { m_configuration = c; log = cut conflict s.log }) quiet in
    (d, effects, rw (found, cut_at, appended, cut_lem conflict s.log, made) refl)
