-- ===== src/AsyncComm/Snapshot.antt =====
-- `PeerSnapshotManager` of server/async_comm/peer_snapshot.py and `PeerSnapshot` of types.py. The
-- snapshot root is a dict from the names of its directories; a JSON file that is absent or cannot
-- be read is `none`. What pathlib, re and datetime say of a text are the fields of `Files`.
pub mod Refresh
pub mod Expiry
use team_harness.Prelude.{
  ℕ, ◌+◌, ◌*◌, String, Bool, true, ◌&&◌, Option, none, some, List, [], ◌∷◌, ltb, eqb, if◌then◌else◌,
}
use team_harness.Prelude.Dict
use team_harness.Prelude.Dict.{Dict}
use team_harness.Prelude.Sort.{sort_by}
use team_harness.AsyncComm.Clock
use team_harness.AsyncComm.Clock.{VectorClock, new_clock}
use team_harness.AsyncComm.Types.{Value, text, opaque_value, get_or}

-- the directory of a peer
pub record PeerDir : Type 0 where
  pub harness : Dict String
  pub manifest : Option (Dict Value)
  pub clock : Option (Dict ℕ)
  pub meta : Option (Dict Value)

pub record Snapshots : Type 0 where
  pub dirs : Dict PeerDir
  pub ttl_days : ℕ

pub record Files : Type 0 where
  -- `_VERSION_RE.match(text.strip())` and the int of its group; f"v{n}"
  pub number_of : String → Option ℕ
  pub version_text : ℕ → String
  -- `_parse_iso`, in microseconds
  pub parse_iso : String → Option ℕ
  -- a path that is absolute or has a part ".."; the path that a relative one names
  pub is_unsafe : String → Bool
  pub normal : String → String
  -- whether `shutil.rmtree` can remove the directory
  pub is_removable : String → Bool
  -- `str(x)` of a JSON value that is no text
  pub repr : Value → String

pub record PeerSnapshot : Type 0 where
  pub peer_id : String
  pub snapshot_version : String
  pub captured_at : String
  pub vector_clock : VectorClock

abbrev no_dir : PeerDir
no_dir = record { harness = []; manifest = none; clock = none; meta = none }

-- `if not meta` is taken for an absent file and for an empty object
abbrev pub filled : Option (Dict Value) → Option (Dict Value)
filled none = none
filled (some []) = none
filled (some (x ∷ d)) = some (x ∷ d)

abbrev pub meta_of : Option PeerDir → Option (Dict Value)
meta_of none = none
meta_of (some d) = filled d.meta

-- _read_meta
unfoldable pub read_meta : Snapshots → String → Option (Dict Value)
read_meta s peer_id = meta_of (Dict.get peer_id s.dirs)

-- _load_vector_clock_from_path
abbrev pub clock_of : Option (Dict ℕ) → VectorClock
clock_of none = new_clock
clock_of (some d) = Clock.from_dict d

abbrev pub dir_clock : Option PeerDir → VectorClock
dir_clock none = new_clock
dir_clock (some d) = clock_of d.clock

unfoldable pub load_vector_clock : Snapshots → String → VectorClock
load_vector_clock s peer_id = dir_clock (Dict.get peer_id s.dirs)

-- the loop over `harness_files`
unfoldable pub write_harness : Files → Dict String → List (String × String) → Dict String
write_harness f files [] = files
write_harness f files ((rel_path, content) ∷ rest) =
    write_harness f
      (if f.is_unsafe rel_path then files else Dict.put (f.normal rel_path) content files) rest

-- a day, in microseconds
abbrev pub day : ℕ
day = 86400000000

module _ (f : Files) where
  -- str(meta.get(key, ""))
  abbrev pub meta_text : String → Dict Value → String
  meta_text key meta = elim (Dict.get key meta) [
    | none ↦ ""
    | some (text t) ↦ t
    | some v ↦ f.repr v
  ]

  abbrev pub version_after : Option (Dict Value) → String
  version_after none = f.version_text 1
  version_after (some meta) = elim (f.number_of (meta_text "snapshot_version" meta)) [
    | none ↦ f.version_text 1
    | some n ↦ f.version_text (n + 1)
  ]

  -- _next_version
  unfoldable pub next_version : Snapshots → String → String
  unfolding read_meta
  next_version s peer_id = version_after (read_meta s peer_id)

  -- the snapshot that a meta file and a clock make
  abbrev pub snapshot_of : String → Option (Dict Value) → VectorClock → Option PeerSnapshot
  snapshot_of peer_id none clock = none
  snapshot_of peer_id (some meta) clock = some (record {
    peer_id = peer_id;
    snapshot_version = meta_text "snapshot_version" meta;
    captured_at = meta_text "captured_at" meta;
    vector_clock = clock;
  })

  unfoldable pub get_snapshot : Snapshots → String → Option PeerSnapshot
  unfolding read_meta load_vector_clock
  get_snapshot s peer_id = snapshot_of peer_id (read_meta s peer_id) (load_vector_clock s peer_id)

  unfoldable pub get_snapshot_version : Snapshots → String → String
  unfolding read_meta
  get_snapshot_version s peer_id = elim (read_meta s peer_id) [
    | none ↦ ""
    | some meta ↦ meta_text "snapshot_version" meta
  ]

  -- `captured_at` is the clock's reading; the result is None for a file that is not written
  unfoldable pub refresh_snapshot :
      String
      → String
      → List (String × String)
      → Option (Dict Value)
      → Option VectorClock
      → Snapshots
      → Snapshots × PeerSnapshot
  unfolding next_version write_harness
  refresh_snapshot captured_at peer_id harness_files manifest vector_clock s =
      let dir = get_or (Dict.get peer_id s.dirs) no_dir in
      let vc = get_or vector_clock new_clock in
      let version = next_version s peer_id in
      let dir' : PeerDir = record {
        harness = write_harness f [] harness_files;
        manifest = elim manifest [ none ↦ dir.manifest | some m ↦ some m ];
        clock = some (Clock.to_dict vc);
        meta = some (
            ("peer_id", text peer_id)
            ∷ ("snapshot_version", text version)
            ∷ ("captured_at", text captured_at)
            ∷ ("ttl_days", opaque_value s.ttl_days)
            ∷ []);
      } in
      (
        record s { dirs = Dict.put peer_id dir' s.dirs },
        record {
          peer_id = peer_id;
          snapshot_version = version;
          captured_at = captured_at;
          vector_clock = vc;
        },
      )

  abbrev pub is_old : ℕ → ℕ → Option (Dict Value) → Bool
  is_old now ttl_days none = true
  is_old now ttl_days (some meta) = elim (f.parse_iso (meta_text "captured_at" meta)) [
    | none ↦ true
    | some captured ↦ if eqb ttl_days 0 then true else ltb (captured + ttl_days * day) now
  ]

  unfoldable pub is_stale : ℕ → Snapshots → String → Bool
  unfolding read_meta
  is_stale now s peer_id = is_old now s.ttl_days (read_meta s peer_id)

  -- the loop of `expire_stale`, over the names that the directory had at the start; `now n` is the
  -- clock's reading at the entry `n`; a directory that cannot be removed is taken to stay whole
  unfoldable pub expire_loop : (String → ℕ) → List String → Snapshots → Snapshots × List String
  unfolding is_stale
  expire_loop now [] s = (s, [])
  expire_loop now (n ∷ ns) s =
      let gone = is_stale (now n) s n && f.is_removable n in
      let (s', expired) =
        expire_loop now ns (if gone then record s { dirs = Dict.remove n s.dirs } else s) in
      (s', if gone then n ∷ expired else expired)

  unfoldable pub expire_stale : (String → ℕ) → Snapshots → Snapshots × List String
  unfolding expire_loop
  expire_stale now s = expire_loop now (Dict.keys s.dirs) s

  -- the loop of `list_snapshots`
  unfoldable pub snapshots_of : Snapshots → List String → List PeerSnapshot
  unfolding get_snapshot
  snapshots_of s [] = []
  snapshots_of s (n ∷ ns) =
      let rest = snapshots_of s ns in elim (get_snapshot s n) [ none ↦ rest | some x ↦ x ∷ rest ]

  unfoldable pub list_snapshots : Snapshots → List PeerSnapshot
  unfolding snapshots_of
  list_snapshots s = snapshots_of s (sort_by (λ n. n) (Dict.keys s.dirs))
