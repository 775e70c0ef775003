-- ===== src/AsyncComm/Snapshot/Refresh.antt =====
-- What a refresh leaves: the snapshot that it returns, under the next version, and a new age.
use team_harness.Prelude.{
  ℕ, ◌+◌, ◌*◌, ◌<◌, String, ◌≡◌, ◌≢◌, refl, ap, ◌∙◌, false, Option, none, some, List, arith, ltb,
  eqb,
}
use team_harness.Prelude.Dict
use team_harness.Prelude.Dict.{Dict, get-put_other, get-put_self}
use team_harness.AsyncComm.Clock
use team_harness.AsyncComm.Clock.{VectorClock}
use team_harness.AsyncComm.Types.{Value}
use team_harness.AsyncComm.Snapshot.{
  Snapshots, Files, read_meta, next_version, get_snapshot, refresh_snapshot, is_stale, day,
  PeerSnapshot, snapshot_of, meta_of, dir_clock, is_old, version_after, meta_text,
}

not_zero : (n : ℕ) → 0 < n → eqb n 0 ≡ false
not_zero n h = ground arith

module _ (f : Files) (at peer_id : String) (harness : List (String × String))
    (manifest : Option (Dict Value)) (vc : Option VectorClock) (s : Snapshots) where
  version_after-text : (o : Option (Dict Value)) → (n : ℕ) × (version_after f o ≡ f.version_text n)
  version_after-text none = (1, refl)
  version_after-text (some meta) = of (f.number_of (meta_text f "snapshot_version" meta))
    where
      of :
          (o : Option ℕ)
          → (n : ℕ) × (elim o [ none ↦ f.version_text 1 | some k ↦ f.version_text (k + 1) ]
              ≡ f.version_text n)
      of none = (1, refl)
      of (some k) = (k + 1, refl)

  abbrev refresh : Snapshots × PeerSnapshot
  refresh = refresh_snapshot f at peer_id harness manifest vc s

  other_dirs : (q : String) → q ≢ peer_id → Dict.get q refresh.0.dirs ≡ Dict.get q s.dirs
  unfolding refresh_snapshot
  other_dirs q ne = get-put_other peer_id q _ s.dirs ne

  other_snapshots : (q : String) → q ≢ peer_id → get_snapshot f refresh.0 q ≡ get_snapshot f s q
  unfolding get_snapshot
  other_snapshots q ne = ap (λ o. snapshot_of f q (meta_of o) (dir_clock o)) (other_dirs q ne)

  refreshed : get_snapshot f refresh.0 peer_id ≡ some refresh.1
  unfolding get_snapshot refresh_snapshot Clock.to_dict Clock.from_dict Dict.get
  refreshed =
      ap (λ o. snapshot_of f peer_id (meta_of o) (dir_clock o)) (get-put_self peer_id _ s.dirs)

  -- the next version counts one further
  refreshed_version :
      ((n : ℕ) → f.number_of (f.version_text n) ≡ some n)
      → (n : ℕ) × (refresh.1.snapshot_version ≡ f.version_text n)
        × (next_version f refresh.0 peer_id ≡ f.version_text (n + 1))
  unfolding next_version refresh_snapshot read_meta Dict.get
  refreshed_version read_back =
      let (n, is) = version_after-text (read_meta s peer_id) in
      (
        n,
        is,
        ap (λ o. version_after f (meta_of o)) (get-put_self peer_id _ s.dirs)
            ∙ rw (is, read_back n) refl,
      )

  -- the age starts anew
  refreshed_age :
      (captured now : ℕ)
      → f.parse_iso at ≡ some captured
      → 0 < s.ttl_days
      → is_stale f now refresh.0 peer_id ≡ ltb (captured + s.ttl_days * day) now
  unfolding is_stale refresh_snapshot Dict.get
  refreshed_age captured now parsed lasting =
      ap (λ o. is_old f now s.ttl_days (meta_of o)) (get-put_self peer_id _ s.dirs)
      ∙ rw (parsed, not_zero s.ttl_days lasting) refl

  -- Where version texts read back, the time of a refresh parses and the lifetime is positive, the
  -- snapshot that a refresh returns is the one that is found afterwards, its version is one below
  -- the next, every other peer's snapshot is as before, and it becomes stale when its lifetime has
  -- passed since the refresh.
  pub refresh_snapshot-get_snapshot :
      (captured : ℕ)
      → ((n : ℕ) → f.number_of (f.version_text n) ≡ some n)
      → f.parse_iso at ≡ some captured
      → 0 < s.ttl_days
      → let (after, snapshot) = refresh_snapshot f at peer_id harness manifest vc s in
        (get_snapshot f after peer_id ≡ some snapshot)
        × ((q : String) → q ≢ peer_id → get_snapshot f after q ≡ get_snapshot f s q)
        × ((n : ℕ) × (snapshot.snapshot_version ≡ f.version_text n)
            × (next_version f after peer_id ≡ f.version_text (n + 1)))
        × ((now : ℕ) → is_stale f now after peer_id ≡ ltb (captured + s.ttl_days * day) now)
  refresh_snapshot-get_snapshot captured read_back parsed lasting = (
    refreshed,
    other_snapshots,
    refreshed_version read_back,
    λ now. refreshed_age captured now parsed lasting,
  )
