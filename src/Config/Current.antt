-- ===== src/Config/Current.antt =====
-- Which configuration is current after an insertion and after a truncation of the log.
use mathlib.Core.Option.{get_or}
use maelstromdb.Base.{
  ℤ, ◌⊎◌, ◌≡◌, refl, [], ◌∷◌, true, none, some, ltb_ℤ, if◌then◌else◌, arith, find, ◌≢◌, sym, ◌∙◌,
  ltb_ℤ→lt, ◌==◌, inl, inr, Bool-cases, int_eq, eqb_ℤ-sound, eqb_ℤ_iff,
}
use maelstromdb.Base.Result.{ok, undefined}
use maelstromdb.Base.SortedMap
use maelstromdb.Protos.{Configuration}
use maelstromdb.Config.{
  ClusterConfiguration, insert_new_configuration, truncate_suffix, follow_last, set_configuration,
}
use maelstromdb.Config.History.{
  History, IsDescending, Above, Below, insert-IsDescending, find-insert, erase_above-IsDescending,
  find-erase_above, erase_above_head, erase_above-Below,
}

-- The current configuration is the one with the greatest index.
abbrev FollowsHead : History → ℤ → Configuration → Type 0
FollowsHead [] id conf = Unit
FollowsHead ((k, v) ∷ m) id conf = (id ≡ k) × (conf ≡ v)

pub record IsCurrent (c : ClusterConfiguration) : Type 0 where
  pub descending : IsDescending c.m_configurations
  pub head : FollowsHead c.m_configurations c.m_id c.m_current_configuration

-- Where the head of the map has the current index, it is the current configuration.
abbrev Agrees : History → ℤ → Configuration → Type 0
Agrees [] id conf = ⊥
Agrees ((k, v) ∷ m) id conf = id ≡ k → conf ≡ v

follow_last_lem :
    (m : History) (c : ClusterConfiguration)
    → c.m_configurations ≡ m
    → Agrees m c.m_id c.m_current_configuration
    → (d : ClusterConfiguration) × (follow_last c ≡ ok d)
      × FollowsHead m d.m_id d.m_current_configuration
      × (d.m_configurations ≡ m)
unfolding follow_last set_configuration
follow_last_lem [] c e agrees = absurd agrees
follow_last_lem ((k, v) ∷ m) c e agrees = elim (Bool-cases (c.m_id == k)) [
  | inl same ↦
      let id : c.m_id ≡ k = eqb_ℤ-sound c.m_id k same in (c, rw (e, same), (id, agrees id), e)
  | inr other ↦ (set_configuration k v c, rw (e, other), (refl, refl), e)
]

IsCurrent-intro :
    (m : History) (d : ClusterConfiguration)
    → d.m_configurations ≡ m
    → IsDescending m
    → FollowsHead m d.m_id d.m_current_configuration
    → IsCurrent d
IsCurrent-intro m d e desc h = record { descending = rw e desc; head = rw e h }

ne_of_ltb : (j k : ℤ) → ltb_ℤ j k ≡ true → j ≢ k
ne_of_ltb j k h e = ground arith

insert-Agrees :
    (k : ℤ) (v : Configuration) (m : History) (id : ℤ) (conf : Configuration)
    → (m ≡ [] → id ≢ k)
    → FollowsHead m id conf
    → Agrees (SortedMap.insert ltb_ℤ k v m) id conf
unfolding SortedMap.insert
insert-Agrees k v [] id conf fresh h = λ e. absurd (fresh refl e)
insert-Agrees k v ((j, w) ∷ m) id conf fresh h = elim (Bool-cases (ltb_ℤ j k)) [
  | inl below ↦ rw below (λ e. absurd (ne_of_ltb j k below (sym h.0 ∙ e)))
  | inr above ↦ elim (Bool-cases (j == k)) [
    | inl same ↦ rw (above, same) (λ _. h.1)
    | inr other ↦ rw (above, other) (λ _. h.1)
  ]
]

Below-Agrees :
    (j id : ℤ) (conf : Configuration) (m : History) → Below j m → m ≢ [] → id ≡ j → Agrees m id conf
Below-Agrees j id conf [] h some' e = absurd (some' refl)
Below-Agrees j id conf ((k, v) ∷ m) h some' e = λ same. absurd (ground arith)

Above-of_erase_above : (r : ℤ) (m : History) → SortedMap.erase_above ltb_ℤ r m ≡ [] → Above r m
unfolding SortedMap.erase_above
Above-of_erase_above r [] e = tt
Above-of_erase_above r ((j, w) ∷ m) e = elim (Bool-cases (ltb_ℤ r j)) [
  | inl above ↦ (ground arith, Above-of_erase_above r m (ground arith))
  | inr kept ↦ absurd (ground arith)
]

erase_above_of_Above : (r : ℤ) (m : History) → Above r m → SortedMap.erase_above ltb_ℤ r m ≡ []
unfolding SortedMap.erase_above
erase_above_of_Above r [] h = refl
erase_above_of_Above r ((j, w) ∷ m) h = ground (arith, erase_above_of_Above r m h.1)

erase-Agrees :
    (r : ℤ) (m : History) (id : ℤ) (conf : Configuration)
    → IsDescending m
    → FollowsHead m id conf
    → ¬ Above r m
    → Agrees (SortedMap.erase_above ltb_ℤ r m) id conf
unfolding SortedMap.erase_above
erase-Agrees r [] id conf desc h kept = kept tt
erase-Agrees r ((j, w) ∷ m) id conf desc h kept = elim (Bool-cases (ltb_ℤ r j)) [
  | inl above ↦ rw above (
      Below-Agrees j id conf (SortedMap.erase_above ltb_ℤ r m) (erase_above-Below r j m desc.0)
        (λ none_left. kept (ltb_ℤ→lt r j above, Above-of_erase_above r m none_left)) h.0)
  | inr below ↦ rw below (λ _. h.1)
]

-- `InsertNewConfiguration` keeps the configuration with the greatest index current and adds its
-- argument under an index that has none, where the index is not the current one of an empty map.
pub insert_new_configuration-IsCurrent :
    (k : ℤ) (v : Configuration) (c : ClusterConfiguration)
    → IsCurrent c
    → (c.m_configurations ≡ [] → c.m_id ≢ k)
    → (d : ClusterConfiguration) × (insert_new_configuration k v c ≡ ok d)
      × IsCurrent d
      × ((j : ℤ)
          → find j d.m_configurations ≡ (
              if k == j
              then some (get_or (find k c.m_configurations) v)
              else find j c.m_configurations))
unfolding insert_new_configuration
insert_new_configuration-IsCurrent k v c inv fresh =
    let m = SortedMap.insert ltb_ℤ k v c.m_configurations in
    let agrees =
      insert-Agrees k v c.m_configurations c.m_id c.m_current_configuration fresh inv.head in
    let (d, done, head, same) = follow_last_lem m (record c { m_configurations = m }) refl agrees in
    (
      d,
      done,
      IsCurrent-intro m d same (insert-IsDescending k v c.m_configurations inv.descending) head,
      λ j. rw same (find-insert k v j c.m_configurations inv.descending),
    )

truncate_kept :
    (r : ℤ) (c : ClusterConfiguration)
    → IsCurrent c
    → ¬ Above r c.m_configurations
    → (d : ClusterConfiguration) × (truncate_suffix r c ≡ ok d)
      × IsCurrent d
      × ((j : ℤ)
          → find j d.m_configurations ≡ (if ltb_ℤ r j then none else find j c.m_configurations))
unfolding truncate_suffix
truncate_kept r c inv kept =
    let m = SortedMap.erase_above ltb_ℤ r c.m_configurations in
    let desc = inv.descending in
    let agrees =
      erase-Agrees r c.m_configurations c.m_id c.m_current_configuration desc inv.head kept in
    let (d, done, head, same) = follow_last_lem m (record c { m_configurations = m }) refl agrees in
    (
      d,
      done,
      IsCurrent-intro m d same (erase_above-IsDescending r c.m_configurations desc) head,
      λ j. rw same (find-erase_above r j c.m_configurations desc),
    )

Above-cases : (r : ℤ) (m : History) → Above r m ⊎ (¬ Above r m)
Above-cases r [] = inl tt
Above-cases r ((j, w) ∷ m) = elim (Bool-cases (ltb_ℤ r j)) [
  | inr below ↦ inr (λ h. ground (arith, h.0))
  | inl above ↦ elim (Above-cases r m) [
    | inl all ↦ inl (ltb_ℤ→lt r j above, all)
    | inr some_kept ↦ inr (λ h. some_kept h.1)
  ]
]

truncate_all :
    (r : ℤ) (c : ClusterConfiguration)
    → Above r c.m_configurations
    → truncate_suffix r c ≡ undefined
unfolding truncate_suffix
truncate_all r c all = rw (erase_above_of_Above r c.m_configurations all) refl

-- `TruncateSuffix` dereferences `rbegin()` of an empty map where every index is above its argument;
-- and where some index is not, it makes the last configuration at or below its argument current and
-- forgets those above it.
pub truncate_suffix-IsCurrent :
    (r : ℤ) (c : ClusterConfiguration)
    → IsCurrent c
    → (Above r c.m_configurations × (truncate_suffix r c ≡ undefined))
      ⊎ ((¬ Above r c.m_configurations)
          × ((d : ClusterConfiguration) × (truncate_suffix r c ≡ ok d)
              × IsCurrent d
              × ((j : ℤ)
                  → find j d.m_configurations
                    ≡ (if ltb_ℤ r j then none else find j c.m_configurations))))
truncate_suffix-IsCurrent r c inv = elim (Above-cases r c.m_configurations) [
  | inl all ↦ inl (all, truncate_all r c all)
  | inr kept ↦ inr (kept, truncate_kept r c inv kept)
]

not-Above_of_find : (r : ℤ) (v : Configuration) (m : History) → find r m ≡ some v → ¬ Above r m
unfolding find
not-Above_of_find r v [] e h = cc
not-Above_of_find r v ((j, w) ∷ m) e h = not-Above_of_find r v m (ground arith) h.1

insert_taken :
    (r : ℤ) (v w : Configuration) (rest : History)
    → SortedMap.insert ltb_ℤ r w ((r, v) ∷ rest) ≡ (r, v) ∷ rest
unfolding SortedMap.insert
insert_taken r v w rest = ground arith

reinsert :
    (r : ℤ) (v w : Configuration) (rest : History) (d : ClusterConfiguration)
    → d.m_configurations ≡ (r, v) ∷ rest
    → d.m_id ≡ r
    → insert_new_configuration r w d ≡ ok d
unfolding insert_new_configuration follow_last
reinsert r v w rest d e id =
    let same : SortedMap.insert ltb_ℤ r w d.m_configurations ≡ d.m_configurations =
      rw e (insert_taken r v w rest) in
    rw same (ground (arith, (eqb_ℤ_iff d.m_id r).1 id))

-- Where the log has a configuration at index `r`, truncating at `r` and then inserting another one
-- at `r` leaves the old one current: it is not removed, and the new one is not taken.
stale_after_truncation :
    (r : ℤ) (v w : Configuration) (c : ClusterConfiguration)
    → IsCurrent c
    → find r c.m_configurations ≡ some v
    → (d : ClusterConfiguration) × (truncate_suffix r c ≡ ok d)
      × (insert_new_configuration r w d ≡ ok d)
      × (d.m_id ≡ r)
      × (d.m_current_configuration ≡ v)
unfolding truncate_suffix insert_new_configuration
stale_after_truncation r v w c inv e =
    let m = SortedMap.erase_above ltb_ℤ r c.m_configurations in
    let kept = not-Above_of_find r v c.m_configurations e in
    let agrees =
      erase-Agrees r c.m_configurations c.m_id c.m_current_configuration inv.descending inv.head
        kept in
    let (d, done, head, same) = follow_last_lem m (record c { m_configurations = m }) refl agrees in
    let (rest, top) = erase_above_head r v c.m_configurations inv.descending e in
    let followed : FollowsHead ((r, v) ∷ rest) d.m_id d.m_current_configuration = rw top at head in
    (d, done, reinsert r v w rest d (same ∙ top) followed.0, followed.0, followed.1)
