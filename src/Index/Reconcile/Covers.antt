-- ===== src/Index/Reconcile/Covers.antt =====
-- What one run of server/infra_db/reconcile_embedding.py adds to the queue.
use team_harness.Prelude.{
  ℕ, suc, ◌+◌, ◌*◌, ◌≤◌, ◌≡◌, ◌⊎◌, refl, ap, sym, ◌∙◌, String, true, ◌||◌, some, List, [], ◌∷◌,
  ◌++◌, append-nil, append_assoc, All, length, length-append, contains, ◌==◌, ==_iff, nonempty,
  arith, if◌then◌else◌, Bool-cases, inl, inr,
}
use team_harness.Prelude.Dict
use team_harness.Prelude.Dict.{Dict, keys}
use team_harness.Outbox.Tables.{EmbeddingTask, AssetIndex, Database, pending}
use team_harness.Index.Types.{Platform, Versions}
use team_harness.Index.{enqueue_versions}
use team_harness.Index.Query.{is_stale_null, null_rows, list_null_embedding}
use team_harness.Index.Queue.{
  IsQueue, added, enqueue_versions-tasks, enqueue_versions-IsQueue, enqueue_versions-assets,
  has_waiting, has_waiting-append, has_waiting-added,
}
use team_harness.Index.Reconcile.{requeue_one, requeue, requeue_all, run}
use team_harness.Index.Reconcile.Scan.{contains-null_rows}

All-append {κ} :
    (P : EmbeddingTask → Type κ) (ts us : List EmbeddingTask)
    → All P ts
    → All P us
    → All P (ts ++ us)
All-append P [] us h g = g
All-append P (t ∷ ts) us (p, h) g = (p, All-append P ts us h g)

-- a task that the compensation adds
abbrev pub IsReindex : Versions → EmbeddingTask → Type 0
IsReindex v t =
    (t.task_type ≡ "reindex")
    × (t.status ≡ pending)
    × (t.retry_count ≡ 0)
    × ((t.model_version ≡ v.active_version) ⊎ (t.model_version ≡ v.shadow_version))

-- the number of tasks for an asset
abbrev pub per_asset : Versions → ℕ
per_asset v = if nonempty v.shadow_version then 2 else 1

-- n assets have new tasks, and nothing else changes
pub record Grows (v : Versions) (n : ℕ) (db after : Database) : Type 0 where
  pub assets : after.assets ≡ db.assets
  pub vectors : after.vectors ≡ db.vectors
  pub bindings : after.bindings ≡ db.bindings
  pub new_tasks : List EmbeddingTask
  pub tasks : after.tasks ≡ db.tasks ++ new_tasks
  pub count : length new_tasks ≡ n * per_asset v
  pub reindex : All (IsReindex v) new_tasks
  pub queue : IsQueue db → IsQueue after

module _ (p : Platform) (v : Versions) where
  Grows-refl : (db : Database) → Grows v 0 db db
  Grows-refl db = record {
    assets = refl;
    vectors = refl;
    bindings = refl;
    new_tasks = [];
    tasks = sym (append-nil db.tasks);
    count = omega arith;
    reindex = tt;
    queue = λ h. h;
  }

  Grows-trans : (m n : ℕ) (a b c : Database) → Grows v m a b → Grows v n b c → Grows v (m + n) a c
  Grows-trans m n a b c g h = record {
    assets = h.assets ∙ g.assets;
    vectors = h.vectors ∙ g.vectors;
    bindings = h.bindings ∙ g.bindings;
    new_tasks = g.new_tasks ++ h.new_tasks;
    tasks =
        h.tasks
        ∙ ap (λ ts. ts ++ h.new_tasks) g.tasks
        ∙ append_assoc a.tasks g.new_tasks h.new_tasks;
    count = length-append g.new_tasks h.new_tasks ∙ ground (arith, g.count, h.count);
    reindex = All-append (IsReindex v) g.new_tasks h.new_tasks g.reindex h.reindex;
    queue = λ q. h.queue (g.queue q);
  }

  added-IsReindex :
      (i : String) (db : Database)
      → All (IsReindex v) (added p v i "reindex" db)
        × (length (added p v i "reindex" db) ≡ 1 * per_asset v)
  unfolding added
  added-IsReindex i db = elim (Bool-cases (nonempty v.shadow_version)) [
    | inl dual ↦
        rw dual (((refl, refl, refl, inl refl), ((refl, refl, refl, inr refl), tt)), omega arith)
    | inr single ↦ rw single (((refl, refl, refl, inl refl), tt), omega arith)
  ]

  Grows-enqueue : (i : String) (db : Database) → Grows v 1 db (enqueue_versions p v i "reindex" db)
  Grows-enqueue i db =
      let (assets, vectors, bindings) = enqueue_versions-assets p v i "reindex" db in
      let (reindex, count) = added-IsReindex i db in
      record {
        assets = assets;
        vectors = vectors;
        bindings = bindings;
        new_tasks = added p v i "reindex" db;
        tasks = enqueue_versions-tasks p v i "reindex" db;
        count = count;
        reindex = reindex;
        queue = enqueue_versions-IsQueue p v i "reindex" db;
      }

  Grows-waits :
      (n : ℕ) (i w : String) (a b : Database)
      → Grows v n a b
      → has_waiting i w a.tasks ≡ true
      → has_waiting i w b.tasks ≡ true
  Grows-waits n i w a b g h =
      ap (has_waiting i w) g.tasks
      ∙ has_waiting-append i w a.tasks g.new_tasks
      ∙ ap (λ x. x || has_waiting i w g.new_tasks) h

  requeue_one-covers :
      (i : String) (db : Database)
      → let (after, n) = requeue_one p v i db in
        Grows v n db after × (has_waiting i v.active_version after.tasks ≡ true) × (n ≤ 1)
  unfolding requeue_one
  requeue_one-covers i db = elim (Bool-cases (has_waiting i v.active_version db.tasks)) [
    | inl waits ↦ rw waits (Grows-refl db, waits, omega arith)
    | inr none_waits ↦ rw none_waits (
      Grows-enqueue i db,
      ap (has_waiting i v.active_version) (enqueue_versions-tasks p v i "reindex" db)
          ∙ has_waiting-append i v.active_version db.tasks (added p v i "reindex" db)
          ∙ rw (has_waiting-added p v i "reindex" db) (ground arith),
      omega arith,
    )
  ]

  requeue-covers :
      (rows : Dict AssetIndex) (db : Database)
      → let (after, n) = requeue p v rows db in
        Grows v n db after
        × ((k : String)
            → contains k (keys rows) ≡ true
            → has_waiting k v.active_version after.tasks ≡ true)
        × (n ≤ length rows)
  unfolding requeue
  requeue-covers [] db = (Grows-refl db, λ k h. absurd (cc), omega arith)
  requeue-covers ((i, row) ∷ rows) db =
      let one = (requeue_one p v i db).0 in
      let m = (requeue_one p v i db).1 in
      let (grows, waits, few) = requeue_one-covers i db in
      let (more, rest, less) = requeue-covers rows one in
      let after = (requeue p v rows one).0 in
      (
        Grows-trans m (requeue p v rows one).1 db one after grows more,
        λ k h. elim (Bool-cases (i == k)) [
          | inl same ↦
              ap (λ x. has_waiting x v.active_version after.tasks) (sym ((==_iff i k).0 same))
              ∙ Grows-waits (requeue p v rows one).1 i v.active_version one after more waits
          | inr other ↦ rest k (ground arith)
        ],
        omega arith,
      )

  -- the last reading of the table changes the time only
  requeue_all-Grows :
      (stale_seconds max_requeue : ℕ) (rows : Dict AssetIndex) (db : Database)
      → let (after, r) = requeue_all p v stale_seconds max_requeue rows db in
        Grows v r.requeued db after
        × ((k : String)
            → contains k (keys rows) ≡ true
            → has_waiting k v.active_version after.tasks ≡ true)
        × (r.requeued ≤ r.scanned)
        × (r.scanned ≡ length rows)
  unfolding requeue_all list_null_embedding
  requeue_all-Grows stale_seconds max_requeue [] db =
      (Grows-refl db, λ k h. absurd (cc), omega arith, refl)
  requeue_all-Grows stale_seconds max_requeue ((i, row) ∷ rows) db =
      let ticked : Database = record db { time_at = suc db.time_at } in
      let (g, waits, few) = requeue-covers ((i, row) ∷ rows) ticked in
      (
        record {
          assets = g.assets;
          vectors = g.vectors;
          bindings = g.bindings;
          new_tasks = g.new_tasks;
          tasks = g.tasks;
          count = g.count;
          reindex = g.reindex;
          queue = g.queue;
        },
        waits,
        few,
        refl,
      )

  -- A run of the compensation over a table that fits into its limit leaves a waiting task of the
  -- active version for every asset that has been without a vector for too long. It adds exactly one
  -- new task, or two where a shadow is written, for each asset that it counts as requeued, changes
  -- no asset, vector or binding, and keeps the ids of the queue a key with a new next id.
  pub run-Covers :
      (stale_seconds max_requeue : ℕ) (db : Database)
      → length db.assets ≤ max_requeue
      → let (after, r) = run p v stale_seconds max_requeue db in
        Grows v r.requeued db after
        × (r.requeued ≤ r.scanned)
        × ((k : String) (row : AssetIndex)
            → Dict.get k db.assets ≡ some row
            → is_stale_null p (p.clock db.time_at) stale_seconds row ≡ true
            → has_waiting k v.active_version after.tasks ≡ true)
  unfolding run list_null_embedding
  run-Covers stale_seconds max_requeue db enough =
      let rows = null_rows p stale_seconds max_requeue db in
      let (g, waits, few, scanned) =
        requeue_all-Grows stale_seconds max_requeue rows (record db { time_at = suc db.time_at }) in
      (
        record {
          assets = g.assets;
          vectors = g.vectors;
          bindings = g.bindings;
          new_tasks = g.new_tasks;
          tasks = g.tasks;
          count = g.count;
          reindex = g.reindex;
          queue = g.queue;
        },
        few,
        λ k row at holds.
            waits k (contains-null_rows p stale_seconds max_requeue k row db enough at holds),
      )
