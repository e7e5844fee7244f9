-- ===== src/Rpc/Client/Stubs.antt =====
-- The entries of `m_stubs` in raft_client.cpp.
use maelstromdb.Base.{
  ◌≡◌, refl, List, [], ◌∷◌, Bool, true, false, Option, none, some, not, ◌&&◌, if◌then◌else◌, Text,
  text_eq, text_eqb_iff, text_eqb_self, ◌==◌, find, assign, erase_key, find-assign, find-erase_key,
  contains, arith, Bool-cases, Option-cases, inl, inr,
}
use maelstromdb.Rpc.Client.{
  Client, new_addresses, removed_addresses, erase_all, connect_all, create_connections,
}

-- Whether there is an entry.
abbrev is_entry : Option Bool → Bool
is_entry none = false
is_entry (some stub) = true

contains-new_addresses :
    (x : Text) (peers : List Text) (stubs : List (Text × Bool))
    → contains x (new_addresses peers stubs) ≡ contains x peers && not (is_entry (find x stubs))
unfolding contains new_addresses
contains-new_addresses x [] stubs = refl
contains-new_addresses x (peer ∷ peers) stubs = elim (Bool-cases (peer == x)) [
  | inl same ↦
      let here : peer ≡ x = (text_eqb_iff peer x).0 same in
      rw here (ground (arith, contains-new_addresses x peers stubs, text_eqb_self x))
  | inr other ↦ ground (arith, contains-new_addresses x peers stubs)
]

contains-removed_addresses :
    (x : Text) (peers : List Text) (stubs : List (Text × Bool))
    → contains x (removed_addresses peers stubs) ≡ is_entry (find x stubs) && not (contains x peers)
unfolding contains removed_addresses find
contains-removed_addresses x peers [] = refl
contains-removed_addresses x peers ((peer, stub) ∷ stubs) = elim (Bool-cases (peer == x)) [
  | inl same ↦
      let here : peer ≡ x = (text_eqb_iff peer x).0 same in
      rw here (ground (arith, contains-removed_addresses x peers stubs, text_eqb_self x))
  | inr other ↦ ground (arith, contains-removed_addresses x peers stubs)
]

find-erase_all :
    (x : Text) (peers : List Text) (stubs : List (Text × Bool))
    → find x (erase_all peers stubs) ≡ (if contains x peers then none else find x stubs)
unfolding contains erase_all
find-erase_all x [] stubs = refl
find-erase_all x (peer ∷ peers) stubs =
    ground (arith, find-erase_all x peers (erase_key peer stubs), find-erase_key peer x stubs)

find-connect_all :
    (x self : Text) (peers : List Text) (stubs : List (Text × Bool))
    → find x (connect_all self peers stubs)
      ≡ (if contains x peers && not (x == self) then some true else find x stubs)
unfolding contains connect_all
find-connect_all x self [] stubs = refl
find-connect_all x self (peer ∷ peers) stubs = elim (Bool-cases (peer == self)) [
  | inl q ↦ ground (arith, find-connect_all x self peers stubs, text_eqb_iff peer x)
  | inr q ↦ ground (
    arith,
    find-connect_all x self peers (assign peer true stubs),
    find-assign peer x true stubs,
    text_eqb_iff peer x,
  )
]

-- After the connections are made for a set of servers, there is an entry for exactly the servers of
-- the set, less the node itself where it had none; an entry that was there is kept as it was, and a
-- new one has a stub.
pub find-create_connections :
    (x : Text) (peers : List Text) (c : Client)
    → find x (create_connections peers c).m_stubs ≡ (
        if not (contains x peers) then none else elim (find x c.m_stubs) [
          | some stub ↦ some stub
          | none ↦ if x == c.address then none else some true
        ])
unfolding create_connections
find-create_connections x peers c =
    let added = new_addresses peers c.m_stubs in
    let removed = removed_addresses peers c.m_stubs in
    let connected = find-connect_all x c.address added (erase_all removed c.m_stubs) in
    let erased = find-erase_all x removed c.m_stubs in
    let is_new = contains-new_addresses x peers c.m_stubs in
    let is_old = contains-removed_addresses x peers c.m_stubs in
    elim (Option-cases (find x c.m_stubs)) [ inl q ↦ ground arith | inr (stub, q) ↦ ground arith ]
