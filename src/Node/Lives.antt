-- ===== src/Node/Lives.antt =====
-- The life of a node: the handlers of the consensus module, and restarts from its files. A crash
-- falls between two handlers.
use maelstromdb.Base.{
  ℤ, ◌≡◌, ◌≢◌, ◌⊎◌, inl, inr, Text, [], false, arith, ap, pos_part, neg_part, ◌∙◌, sym, List,
}
use mathlib.Core.Path.{subst}
use maelstromdb.Base.Result.{ok, ◌>>=◌, >>=_inversion, ok-injective}
use maelstromdb.Storage.{PersistedLog}
use maelstromdb.Storage.Refinement.{raft_log}
use maelstromdb.Storage.MetadataFiles.{
  MetadataFiles, IsCurrent, metadata_of, stored_metadata, restored_log-metadata,
}
use maelstromdb.Storage.Restore.{StoredFile, restored_log}
use maelstromdb.Consensus.State.{Env, Consensus}
use maelstromdb.Consensus.Votes.{IsPersisted, HasVoted}
use maelstromdb.Consensus.Turns.{Turn, kept}
use maelstromdb.Consensus.Steps.{Step, Step-Turn, IsVoteSafe}
use maelstromdb.Consensus.Runs.{Turn-IsPersisted, Turn-HasVoted}
use maelstromdb.Consensus.State.{new_consensus}
use maelstromdb.Consensus.Roles.{state_machine_init}
use maelstromdb.Node.{initialize_consensus, new_context, latest_of, max_file_size}
use maelstromdb.Node.Restart.{restart}

-- A handler, or a crash with a restart that is not as the leader, from a directory of which the two
-- metadata files are as `SetMetadata` has left them; the other files of the directory are any.
pub data Event (env : Env) (s t : Consensus) : Type 0 where
  handled : Step env s t → Event env s t
  restarted :
      (files : List StoredFile) (fs : MetadataFiles)
      → IsCurrent s.log.log_metadata fs
      → metadata_of files ≡ stored_metadata fs
      → initialize_consensus env files s.address false ≡ ok t
      → Event env s t

pub data Life (env : Env) (s : Consensus) : Consensus → Type 0 where
  born : Life env s s
  next : {t u : Consensus} → Life env s t → Event env t u → Life env s u

unfoldable pub IsSafeEvent : {env : Env} {s t : Consensus} → Event env s t → Type 0
IsSafeEvent {env} {s} {t} (handled step) = IsVoteSafe step
IsSafeEvent {env} {s} {t} (restarted files fs current same h) = Unit

-- Every handler of the life is safe for the vote.
unfoldable pub AreSafeEvents : {env : Env} {s t : Consensus} → Life env s t → Type 0
AreSafeEvents born = Unit
AreSafeEvents (next life event) = AreSafeEvents life × IsSafeEvent event

-- The node had the vote for the candidate in the term, at the start, after a handler or a restart.
unfoldable pub Held : ℤ → Text → {env : Env} {s t : Consensus} → Life env s t → Type 0
Held term a {env} {s} {t} born = (t.m_term ≡ term) × (t.m_vote ≡ a)
Held term a {env} {s} {t} (next life event) =
    Held term a life ⊎ ((t.m_term ≡ term) × (t.m_vote ≡ a))

-- The log that such a start restores.
restored_context :
    (env : Env) (files : List StoredFile) (address : Text) (fs : MetadataFiles) (s t : Consensus)
    → IsCurrent s.log.log_metadata fs
    → metadata_of files ≡ stored_metadata fs
    → initialize_consensus env files address false ≡ ok t
    → (l : PersistedLog) × (restored_log max_file_size files ≡ ok l)
      × (l.m_metadata ≡ s.log.log_metadata)
unfolding initialize_consensus new_context
restored_context env files address fs s t current same h =
    let (ctx, made, h') =
      >>=_inversion (new_context env files address)
        (λ ctx. state_machine_init (latest_of ctx.m_log) ctx.m_consensus >>= (λ u. ok u)) t h in
    let (l, restoring, made') =
      >>=_inversion (restored_log max_file_size files)
        (λ l. ok (record {
          address = address;
          m_consensus = new_consensus env address (raft_log l);
          m_log = l;
        }))
        ctx made in
    (
      l,
      restoring,
      restored_log-metadata max_file_size files s.log.log_metadata fs l current same restoring,
    )

Event-Turn :
    {env : Env} {s t : Consensus} (event : Event env s t)
    → IsPersisted s
    → Turn (IsSafeEvent event) s t
unfolding IsSafeEvent raft_log
Event-Turn (handled step) persisted = Step-Turn step
Event-Turn {env} {s} {t} (restarted files fs current same h) persisted =
    let (l, restoring, kept_metadata) =
      restored_context env files s.address fs s t current same h in
    let (u, started, again, log) =
      restart env files s.address s fs l persisted current restoring kept_metadata in
    let is_u : u ≡ t = ok-injective (sym (started false) ∙ h) in
    subst (Turn Unit s) is_u (
      kept (record {
        same_term = again.same_term;
        same_vote = again.same_vote;
        same_metadata = ap (λ v. v.log_metadata) log ∙ kept_metadata;
      }))

-- Whatever handlers run, in any order, and wherever the node crashes and restarts, not as the
-- leader, from a directory with any log files and with the two metadata files of which the newer
-- one holds the metadata last set, or none where they were never set, the term and the vote in
-- memory are those on disk after each, if they are at first.
pub Life-IsPersisted : {env : Env} {s t : Consensus} → Life env s t → IsPersisted s → IsPersisted t
Life-IsPersisted born h = h
Life-IsPersisted (next life event) h =
    let before = Life-IsPersisted life h in Turn-IsPersisted (Event-Turn event before) before

module _ (term : ℤ) (a : Text) (named : a ≢ []) where
  Held-HasVoted :
      {env : Env} {s t : Consensus} (life : Life env s t)
      → AreSafeEvents life
      → IsPersisted s
      → Held term a life
      → HasVoted term a t
  unfolding AreSafeEvents Held HasVoted
  Held-HasVoted born safe persisted held = inr held
  Held-HasVoted (next life event) safe persisted (inr now) = inr now
  Held-HasVoted (next life event) (before, last) persisted (inl earlier) =
      Turn-HasVoted term a named (Event-Turn event (Life-IsPersisted life persisted)) last
        (Held-HasVoted life before persisted earlier)

  -- A vote that is held now, after another in the same term.
  HasVoted-now :
      (b : Text) (t : Consensus) → HasVoted term a t → t.m_term ≡ term → t.m_vote ≡ b → a ≡ b
  unfolding HasVoted
  HasVoted-now b t (inl past) same vote =
      let pos = ap pos_part same in let neg = ap neg_part same in absurd (omega arith)
  HasVoted-now b t (inr (_, cast)) same vote = sym cast ∙ vote

-- In one term of a node's life, where no reply is to a request of an earlier term than the node's,
-- no request to append entries in the node's own term finds it a candidate or a leader with a vote,
-- and no lease timer runs out but one made in a later term, a node whose term and vote are on disk
-- at first has the vote for one named candidate at most. The life may have crashes and restarts
-- that are not as the leader, from directories with any log files and with the two metadata files
-- of which the newer one holds the metadata last set, or none where they were never set.
pub single_vote_in_life :
    (env : Env) (s t : Consensus) (term : ℤ) (a b : Text) (life : Life env s t)
    → AreSafeEvents life
    → IsPersisted s
    → a ≢ []
    → b ≢ []
    → Held term a life
    → Held term b life
    → a ≡ b
unfolding AreSafeEvents Held
single_vote_in_life env s t term a b born safe persisted named_a named_b (_, first) (_, second) =
    sym first ∙ second
single_vote_in_life env s t term a b (next {t = u} life event) (before, last) persisted named_a
      named_b (inl x) (inl y) =
    single_vote_in_life env s u term a b life before persisted named_a named_b x y
single_vote_in_life env s t term a b (next life event) safe persisted named_a named_b (inl x)
      (inr (same, vote)) =
    HasVoted-now term a named_a b t
      (Held-HasVoted term a named_a (next life event) safe persisted (inl x)) same vote
single_vote_in_life env s t term a b (next life event) safe persisted named_a named_b
      (inr (same, vote)) (inl y) =
    sym (
      HasVoted-now term b named_b a t
        (Held-HasVoted term b named_b (next life event) safe persisted (inl y)) same vote)
single_vote_in_life env s t term a b (next life event) safe persisted named_a named_b
      (inr (_, first)) (inr (_, second)) =
    sym first ∙ second
