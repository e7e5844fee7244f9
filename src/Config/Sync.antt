-- ===== src/Config/Sync.antt =====
-- The log sync of joining servers: what `UpdateSyncProgress` computes and what its readers see.
use maelstromdb.Base.{
  ℤ, ◌≡◌, refl, Text, List, [], ◌∷◌, Bool, true, false, ◌&&◌, some, ltb_ℤ, leb_ℤ, if◌then◌else◌,
  arith, assign, text_eq,
}
use maelstromdb.Base.Result.{ok}
use maelstromdb.Config.{
  ClusterConfiguration, SyncState, scan_diff, update_sync_progress, sync_progress, sync_complete,
  diff_entry, sync,
}

abbrev Diff : Type 0
Diff = List (Text × (ℤ × ℤ))

-- Every server has moved past where it was.
unfoldable pub all_advanced : Diff → Bool
all_advanced [] = true
all_advanced (d ∷ diff) = ltb_ℤ d.1.0 d.1.1 && all_advanced diff

-- Every server has reached the index.
unfoldable pub all_reached : ℤ → Diff → Bool
all_reached i [] = true
all_reached i (d ∷ diff) = leb_ℤ i d.1.1 && all_reached i diff

scan_diff_lem :
    (i : ℤ) (diff : Diff) (done : Bool)
    → scan_diff i diff done ≡ (all_advanced diff, all_advanced diff && (done && all_reached i diff))
unfolding scan_diff all_advanced all_reached
scan_diff_lem i [] true = refl
scan_diff_lem i [] false = refl
scan_diff_lem i ((a, (p, q)) ∷ diff) done =
    ground (arith, scan_diff_lem i diff (if ltb_ℤ q i then false else done))

-- The sync state after a report of the match index of a server.
unfoldable pub reported : Text → ℤ → SyncState → Diff
unfolding diff_entry
reported a i s = assign a ((diff_entry a s.state_diff).0, i) s.state_diff

-- In state SYNC, `UpdateSyncProgress` succeeds; afterwards `SyncProgress` answers, as the call
-- itself does, whether all servers have advanced, and `SyncComplete` whether all have advanced and
-- reached the sync index.
pub update_sync_progress_lem :
    (a : Text) (i : ℤ) (c : ClusterConfiguration) (s : SyncState)
    → c.m_state ≡ sync
    → c.m_log_sync ≡ some s
    → (d : ClusterConfiguration) × (update_sync_progress a i c
        ≡ ok (all_advanced (reported a i s), d))
      × (sync_progress d ≡ ok (all_advanced (reported a i s)))
      × (sync_complete d
          ≡ ok (all_advanced (reported a i s) && all_reached s.sync_index (reported a i s)))
unfolding update_sync_progress sync_progress sync_complete reported
update_sync_progress_lem a i c s st e =
    let diff = reported a i s in
    let flags = scan_diff_lem s.sync_index diff true in
    (
      record c {
        m_log_sync = some (record s {
          state_diff = diff;
          progress = all_advanced diff;
          done = all_advanced diff && all_reached s.sync_index diff;
        });
      },
      rw (st, e, flags),
      refl,
      refl,
    )
