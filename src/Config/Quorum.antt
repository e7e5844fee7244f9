-- ===== src/Config/Quorum.antt =====
-- `ClusterConfiguration::CheckQuorum`: two quorums have a voter in common, also across the change
-- from a joint configuration to one of its halves.
use maelstromdb.Base.{
  ◌+◌, ◌*◌, ◌≤◌, ◌<◌, ◌≡◌, Text, List, [], ◌∷◌, Bool, true, false, ◌||◌, ◌==◌, inl, inr, Bool-cases,
  arith, length, contains, remove, IsDistinct, contains-remove, length-remove, remove-IsDistinct,
  text_eq, text_eqb_iff, text_eqb_self,
}
use maelstromdb.Protos.{Server}
use maelstromdb.Config.{ClusterConfiguration, check_quorum, count_votes, is_joint, joint}

-- A server of the list has the address.
unfoldable pub has_address : Text → List Server → Bool
has_address a [] = false
has_address a (s ∷ servers) = s.address == a || has_address a servers

abbrev pub IsMajority : List Server → List Text → Type 0
IsMajority servers votes = length servers < count_votes servers votes * 2

-- A listed server that is in both sets of votes.
abbrev pub CommonVoter : List Server → List Text → List Text → Type 0
CommonVoter servers a b =
    (t : Text) × (has_address t servers ≡ true) × (contains t a ≡ true) × (contains t b ≡ true)

CommonVoter-cons :
    (s : Server) (servers : List Server) (a b : List Text)
    → CommonVoter servers a b
    → CommonVoter (s ∷ servers) a b
unfolding has_address
CommonVoter-cons s servers a b (t, listed, in_a, in_b) = (t, ground arith, in_a, in_b)

-- The pigeonhole principle over the list of servers.
pub overlap :
    (servers : List Server) (a b : List Text)
    → length servers < count_votes servers a + count_votes servers b
    → CommonVoter servers a b
unfolding count_votes has_address
overlap [] a b h = absurd (omega arith)
overlap (s ∷ servers) a b h = elim (Bool-cases (contains s.address a)) [
  | inl in_a ↦ elim (Bool-cases (contains s.address b)) [
    | inl in_b ↦ (s.address, ground (arith, text_eqb_self s.address), in_a, in_b)
    | inr out ↦ CommonVoter-cons s servers a b (overlap servers a b (ground arith))
  ]
  | inr out ↦ elim (Bool-cases (contains s.address b)) [
    | inl in_b ↦ CommonVoter-cons s servers a b (overlap servers a b (ground arith))
    | inr out' ↦ CommonVoter-cons s servers a b (overlap servers a b (ground arith))
  ]
]

-- All votes come from listed servers.
abbrev pub AreMembers : List Text → List Server → Type 0
AreMembers votes servers = (t : Text) → contains t votes ≡ true → has_address t servers ≡ true

count_votes_mono :
    (servers : List Server) (a b : List Text)
    → ((t : Text) → contains t a ≡ true → contains t b ≡ true)
    → count_votes servers a ≤ count_votes servers b
unfolding count_votes
count_votes_mono [] a b sub = omega arith
count_votes_mono (s ∷ servers) a b sub =
    ground (arith, sub s.address, count_votes_mono servers a b sub)

-- A set of members is no larger than the number of servers that it covers.
pub length-le-count_votes :
    (servers : List Server) (votes : List Text)
    → IsDistinct votes
    → AreMembers votes servers
    → length votes ≤ count_votes servers votes
unfolding count_votes has_address contains
length-le-count_votes [] [] d sub = omega arith
length-le-count_votes [] (v ∷ votes) d sub = cc (sub v (ground (arith, text_eqb_self v)))
length-le-count_votes (s ∷ servers) votes d sub = elim (Bool-cases (contains s.address votes)) [
  | inl voted ↦
      let others = remove s.address votes in
      let fewer : length others ≤ count_votes servers others =
        length-le-count_votes servers others (remove-IsDistinct s.address votes d)
          (λ t i. ground (arith, contains-remove t s.address votes, sub t)) in
      ground (
        arith,
        fewer,
        length-remove s.address votes d voted,
        count_votes_mono servers others votes
            (λ t i. ground (arith, contains-remove t s.address votes)),
      )
  | inr silent ↦ ground (
    arith,
    length-le-count_votes servers votes d
        (λ t i. ground (arith, sub t i, text_eqb_iff s.address t)),
  )
]

-- Two quorums of a joint configuration have a common voter among the old servers, and one among
-- the new servers.
pub check_quorum_joint :
    (a b : List Text) (c : ClusterConfiguration)
    → c.m_state ≡ joint
    → check_quorum a c ≡ true
    → check_quorum b c ≡ true
    → CommonVoter c.m_current_configuration.prev_configuration a b
      × CommonVoter c.m_current_configuration.next_configuration a b
unfolding check_quorum
check_quorum_joint a b c j qa qb = (
  overlap c.m_current_configuration.prev_configuration a b (ground arith),
  overlap c.m_current_configuration.next_configuration a b (ground arith),
)

-- Two quorums of a configuration that is not joint have a common voter among its servers, if the
-- votes of each are distinct and come from its servers.
check_quorum_single :
    (a b : List Text) (c : ClusterConfiguration)
    → is_joint c.m_state ≡ false
    → IsDistinct a
    → IsDistinct b
    → AreMembers a c.m_current_configuration.prev_configuration
    → AreMembers b c.m_current_configuration.prev_configuration
    → check_quorum a c ≡ true
    → check_quorum b c ≡ true
    → CommonVoter c.m_current_configuration.prev_configuration a b
unfolding check_quorum
check_quorum_single a b c single da db ma mb qa qb =
    let servers = c.m_current_configuration.prev_configuration in
    overlap servers a b
      (ground (arith, length-le-count_votes servers a da ma, length-le-count_votes servers b db mb))

-- A quorum `a` of a joint configuration meets every quorum `b` of the configuration `d` with the
-- old servers alone and every quorum `b'` of the configuration `d'` with the new servers alone,
-- where the votes of `b` and `b'` are distinct and come from the servers of their configuration.
pub check_quorum_handover :
    (a b b' : List Text) (c d d' : ClusterConfiguration)
    → c.m_state ≡ joint
    → is_joint d.m_state ≡ false
    → is_joint d'.m_state ≡ false
    → d.m_current_configuration.prev_configuration ≡ c.m_current_configuration.prev_configuration
    → d'.m_current_configuration.prev_configuration ≡ c.m_current_configuration.next_configuration
    → IsDistinct b
    → IsDistinct b'
    → AreMembers b c.m_current_configuration.prev_configuration
    → AreMembers b' c.m_current_configuration.next_configuration
    → check_quorum a c ≡ true
    → check_quorum b d ≡ true
    → check_quorum b' d' ≡ true
    → CommonVoter c.m_current_configuration.prev_configuration a b
      × CommonVoter c.m_current_configuration.next_configuration a b'
unfolding check_quorum
check_quorum_handover a b b' c d d' j s s' old new db db' mb mb' qa qb qb' =
    let prev = c.m_current_configuration.prev_configuration in
    let next = c.m_current_configuration.next_configuration in
    (
      overlap prev a b (ground (arith, ap_length old, length-le-count_votes prev b db mb)),
      overlap next a b' (ground (arith, ap_length new, length-le-count_votes next b' db' mb')),
    )
  where
    ap_length : {xs ys : List Server} → xs ≡ ys → length xs ≡ length ys
    ap_length e = cc
