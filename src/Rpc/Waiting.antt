-- ===== src/Rpc/Waiting.antt =====
-- The calls of raft_server.cpp that wait for a request, counted.
use maelstromdb.Base.{
  ℕ, ◌+◌, ◌<◌, ◌≡◌, refl, sym, ap, ◌∙◌, List, [], ◌∷◌, Bool, true, false, some, if◌then◌else◌, eqb,
  eqb_iff, find, nat_eq, arith, Bool-cases, inl, inr,
}
use maelstromdb.Rpc.Server.{
  ClientCommandId, request_vote, append_entries, get_configuration, set_configuration,
  register_client, client_request, client_query, CallStatus, create, process, finish, CallData,
  set_status, delete_call,
}

abbrev pub number : ClientCommandId → ℕ
number request_vote = 0
number append_entries = 1
number get_configuration = 2
number set_configuration = 3
number register_client = 4
number client_request = 5
number client_query = 6

-- 1 for a call of the kind that waits for a request.
unfoldable pub waiting : ClientCommandId → CallData → ℕ
waiting id c = if eqb (number c.id) (number id) then elim c.m_status [ process ↦ 1 | _ ↦ 0 ] else 0

-- The number of the calls of the kind that wait for a request.
unfoldable pub waits : ClientCommandId → List (ℕ × CallData) → ℕ
unfolding waiting
waits id [] = 0
waits id ((a, c) ∷ calls) = waiting id c + waits id calls

unfoldable pub is_created : CallStatus → Bool
is_created create = true
is_created _ = false

-- The addresses are those given out, and every call has asked for its request.
unfoldable pub AreLive : ℕ → List (ℕ × CallData) → Type 0
AreLive next [] = Unit
AreLive next ((a, c) ∷ calls) = (a < next) × (is_created c.m_status ≡ false) × AreLive next calls

pub waiting-finish :
    (id : ClientCommandId) (c : CallData) → waiting id (record c { m_status = finish }) ≡ 0
unfolding waiting
waiting-finish id c = elim (Bool-cases (eqb (number c.id) (number id))) [
  | inl q ↦ rw q refl
  | inr q ↦ rw q refl
]

pub waiting-finished :
    (id : ClientCommandId) (c : CallData) → c.m_status ≡ finish → waiting id c ≡ 0
waiting-finished id c h =
    ap (λ status. waiting id (record { id = c.id; m_status = status })) h ∙ waiting-finish id c

pub waits-set_status :
    (id : ClientCommandId) (address : ℕ) (c : CallData) (calls : List (ℕ × CallData))
    → find address calls ≡ some c
    → waits id (set_status address finish calls) + waiting id c ≡ waits id calls
unfolding waits set_status find waiting
waits-set_status id address c [] h = cc
waits-set_status id address c ((a, d) ∷ calls) h = elim (Bool-cases (eqb a address)) [
  | inl q ↦
      let found : some d ≡ some c = rw q at h in
      let same : d ≡ c = cc in rw (q, same) (omega (arith, waiting-finish id c))
  | inr q ↦ let rest = waits-set_status id address c calls (rw q at h) in rw q (omega arith)
]

pub waits-delete_call :
    (id : ClientCommandId) (address : ℕ) (c : CallData) (calls : List (ℕ × CallData))
    → find address calls ≡ some c
    → waits id (delete_call address calls) + waiting id c ≡ waits id calls
unfolding waits delete_call find
waits-delete_call id address c [] h = cc
waits-delete_call id address c ((a, d) ∷ calls) h = elim (Bool-cases (eqb a address)) [
  | inl q ↦
      let found : some d ≡ some c = rw q at h in let same : d ≡ c = cc in rw (q, same) (omega arith)
  | inr q ↦ let rest = waits-delete_call id address c calls (rw q at h) in rw q (omega arith)
]

pub find-AreLive :
    (next address : ℕ) (c : CallData) (calls : List (ℕ × CallData))
    → AreLive next calls
    → find address calls ≡ some c
    → (address < next) × (is_created c.m_status ≡ false)
unfolding AreLive find
find-AreLive next address c [] live h = cc
find-AreLive next address c ((a, d) ∷ calls) live h = elim (Bool-cases (eqb a address)) [
  | inl q ↦
      let found : some d ≡ some c = rw q at h in
      let same : d ≡ c = cc in
      let here : a ≡ address = (eqb_iff a address).0 q in (rw⁻¹ here live.0, rw⁻¹ same live.1)
  | inr q ↦ find-AreLive next address c calls live.2 (rw q at h)
]

pub set_status-AreLive :
    (next address : ℕ) (calls : List (ℕ × CallData))
    → AreLive next calls
    → AreLive next (set_status address finish calls)
unfolding AreLive set_status is_created
set_status-AreLive next address [] live = live
set_status-AreLive next address ((a, d) ∷ calls) live = elim (Bool-cases (eqb a address)) [
  | inl q ↦ rw q (live.0, refl, live.2)
  | inr q ↦ rw q (live.0, live.1, set_status-AreLive next address calls live.2)
]

pub delete_call-AreLive :
    (next address : ℕ) (calls : List (ℕ × CallData))
    → AreLive next calls
    → AreLive next (delete_call address calls)
unfolding AreLive delete_call
delete_call-AreLive next address [] live = live
delete_call-AreLive next address ((a, d) ∷ calls) live = elim (Bool-cases (eqb a address)) [
  | inl q ↦ rw q live.2
  | inr q ↦ rw q (live.0, live.1, delete_call-AreLive next address calls live.2)
]

pub AreLive-more :
    (next : ℕ) (calls : List (ℕ × CallData)) → AreLive next calls → AreLive (next + 1) calls
unfolding AreLive
AreLive-more next [] live = live
AreLive-more next ((a, c) ∷ calls) live = (omega arith, live.1, AreLive-more next calls live.2)

pub waiting-process :
    (id : ClientCommandId) (c : CallData)
    → c.m_status ≡ process
    → waiting id (record { id = c.id; m_status = process }) ≡ waiting id c
waiting-process id c h = ap (λ status. waiting id (record { id = c.id; m_status = status })) (sym h)
