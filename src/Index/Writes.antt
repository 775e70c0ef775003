-- ===== src/Index/Writes.antt =====
-- What the writes of server/infra_db/asset_index.py promise: the row, its bindings and its tasks.
use team_harness.Prelude.{
  ℕ, suc, ◌≤◌, ◌≡◌, ◌≢◌, ◌⊎◌, refl, ap, sym, ◌∙◌, String, Bool, true, false, Option, none, some,
  List, [], ◌++◌, append-nil, length, ==_iff, arith, if◌then◌else◌,
}
use team_harness.Prelude.Dict
use team_harness.Prelude.Dict.{Dict}
use team_harness.Outbox.Tables.{EmbeddingTask, AssetIndex, Worker, Database, pending}
use team_harness.Outbox.{run_times}
use team_harness.Outbox.Rows.{find_task}
use team_harness.Outbox.Settles.{Settled, run_times-IsSettledAs}
use team_harness.Index.Types.{Platform, Versions, Asset, or_text}
use team_harness.Index.{new_task, row_after, upsert}
use team_harness.Index.Queue.{
  IsQueue, IsFresh, added, enqueue_versions-tasks, enqueue_versions-IsQueue,
  enqueue_versions-find_task, enqueue_versions-assets, has_waiting, has_waiting-added,
}

-- where the row has a vector after the write, it had it before, for the same version
abbrev pub KeepsVector : Versions → Option AssetIndex → AssetIndex → Type 0
KeepsVector v before row =
    (e : String)
    → row.embedding_id ≡ some e
    → (old : AssetIndex) × (before ≡ some old)
      × (old.embedding_id ≡ some e)
      × ((old.active_embedding_version ≡ "")
          ⊎ (old.active_embedding_version ≡ row.active_embedding_version))

-- a task that writes the vector of the asset in the version
abbrev pub IsUpsertOf : String → String → EmbeddingTask → Type 0
IsUpsertOf asset_id version t =
    (t.asset_id ≡ asset_id) × (t.task_type ≡ "upsert") × (t.model_version ≡ version)

module _ (p : Platform) (v : Versions) where
  row_after-KeepsVector :
      (a : Asset) (git_commit content_snapshot : String) (now : ℕ) (before : Option AssetIndex)
      → KeepsVector v before (row_after p v a git_commit content_snapshot now before)
  row_after-KeepsVector a git_commit content_snapshot now none e h = absurd (cc)
  row_after-KeepsVector a git_commit content_snapshot now (some old) e h = (
    old,
    refl,
    ground (arith),
    ground (
      arith,
      ==_iff old.active_embedding_version v.active_version,
      ==_iff old.active_embedding_version "",
    ),
  )

  row_after-active :
      (a : Asset) (git_commit content_snapshot : String) (now : ℕ) (before : Option AssetIndex)
      → let row = row_after p v a git_commit content_snapshot now before in
        (row.status ≡ "active")
        × (row.active_embedding_version ≡ v.active_version)
        × (row.content_snapshot ≡ or_text content_snapshot a.content)
  row_after-active a git_commit content_snapshot now none = (refl, refl, refl)
  row_after-active a git_commit content_snapshot now (some old) = (refl, refl, refl)

  -- the database once the row is written
  abbrev written : Asset → String → String → Database → Database
  written a git_commit content_snapshot db = record db {
    assets =
        Dict.put a.id
          (row_after p v a git_commit content_snapshot (p.clock db.time_at)
            (Dict.get a.id db.assets))
          db.assets;
    time_at = suc db.time_at;
  }

  upsert-tables :
      (a : Asset) (git_commit content_snapshot : String) (b : Bool) (db : Database)
      → let after = (upsert p v a git_commit content_snapshot b db).0 in
        let w = written a git_commit content_snapshot db in
        (after.assets ≡ w.assets)
        × (after.vectors ≡ db.vectors)
        × (after.bindings ≡ db.bindings)
        × (after.tasks ≡ db.tasks ++ (if b then added p v a.id "upsert" w else []))
  unfolding upsert
  upsert-tables a git_commit content_snapshot true db =
      let w = written a git_commit content_snapshot db in
      let (assets, vectors, bindings) = enqueue_versions-assets p v a.id "upsert" w in
      (assets, vectors, bindings, enqueue_versions-tasks p v a.id "upsert" w)
  upsert-tables a git_commit content_snapshot false db =
      (refl, refl, refl, sym (append-nil db.tasks))

  -- `upsert` leaves an active row of the active version with the new content; the row has a vector
  -- id only if it had that one before, for the same version or for none. Every other row, the
  -- vectors and the bindings are as before, and the queue only grows: by a task of the active
  -- version that waits, if and only if one is asked for.
  pub upsert-Indexed :
      (a : Asset) (git_commit content_snapshot : String) (b : Bool) (db : Database)
      → let after = (upsert p v a git_commit content_snapshot b db).0 in
        ((row : AssetIndex) × (Dict.get a.id after.assets ≡ some row)
          × (row.status ≡ "active")
          × (row.active_embedding_version ≡ v.active_version)
          × (row.content_snapshot ≡ or_text content_snapshot a.content)
          × KeepsVector v (Dict.get a.id db.assets) row)
        × ((j : String) → j ≢ a.id → Dict.get j after.assets ≡ Dict.get j db.assets)
        × (after.vectors ≡ db.vectors)
        × (after.bindings ≡ db.bindings)
        × ((us : List EmbeddingTask) × (after.tasks ≡ db.tasks ++ us)
            × (has_waiting a.id v.active_version us ≡ b))
  unfolding has_waiting
  upsert-Indexed a git_commit content_snapshot b db =
      let now = p.clock db.time_at in
      let before = Dict.get a.id db.assets in
      let row = row_after p v a git_commit content_snapshot now before in
      let w = written a git_commit content_snapshot db in
      let (assets, vectors, bindings, tasks) = upsert-tables a git_commit content_snapshot b db in
      let (active, version, content) = row_after-active a git_commit content_snapshot now before in
      (
        (
          row,
          ap (Dict.get a.id) assets ∙ Dict.get-put_self a.id row db.assets,
          active,
          version,
          content,
          row_after-KeepsVector a git_commit content_snapshot now before,
        ),
        λ j ne. ap (Dict.get j) assets ∙ Dict.get-put_other a.id j row db.assets ne,
        vectors,
        bindings,
        (
          if b then added p v a.id "upsert" w else [],
          tasks,
          elim b
              as (λ c.
                has_waiting a.id v.active_version (if c then added p v a.id "upsert" w else [])
                ≡ c) [ true ↦ has_waiting-added p v a.id "upsert" w | false ↦ refl ],
        ),
      )

  pub upsert-IsQueue :
      (a : Asset) (git_commit content_snapshot : String) (b : Bool) (db : Database)
      → IsQueue db
      → IsQueue (upsert p v a git_commit content_snapshot b db).0
  unfolding upsert
  upsert-IsQueue a git_commit content_snapshot true db h =
      enqueue_versions-IsQueue p v a.id "upsert" (written a git_commit content_snapshot db) h
  upsert-IsQueue a git_commit content_snapshot false db h = h

  upsert-find_task :
      (a : Asset) (git_commit content_snapshot : String) (db : Database)
      → IsFresh db
      → find_task db.next_id (upsert p v a git_commit content_snapshot true db).0.tasks
        ≡ some
            (new_task p a.id "upsert" v.active_version (written a git_commit content_snapshot db))
  unfolding upsert
  upsert-find_task a git_commit content_snapshot db fresh =
      enqueue_versions-find_task p v a.id "upsert" (written a git_commit content_snapshot db) fresh

  -- Where the ids of the queue are a key and the next id is new, the task of the active version
  -- that `upsert` adds waits, and has ended after three runs of a worker whose batch holds the whole
  -- queue; before and after, it is an "upsert" of that asset in that version.
  pub upsert-Settled :
      (a : Asset) (git_commit content_snapshot : String) (db : Database) (w : Worker)
      (batch_size : ℕ)
      → IsQueue db
      → let after = (upsert p v a git_commit content_snapshot true db).0 in
        length after.tasks ≤ batch_size
        → ((t : EmbeddingTask) × (find_task db.next_id after.tasks ≡ some t)
            × IsUpsertOf a.id v.active_version t
            × (t.status ≡ pending))
          × ((u : EmbeddingTask) × (find_task db.next_id (run_times w batch_size 3 after).tasks
                ≡ some u)
              × IsUpsertOf a.id v.active_version u
              × Settled u.status)
  upsert-Settled a git_commit content_snapshot db w batch_size h enough =
      let there = upsert-find_task a git_commit content_snapshot db h.1 in
      let (u, found, same, settled) =
        run_times-IsSettledAs w batch_size 2 db.next_id _
          (upsert p v a git_commit content_snapshot true db).0
          (upsert-IsQueue a git_commit content_snapshot true db h).0 enough there refl
          (omega arith) in
      (
        (_, there, (refl, refl, refl), refl),
        (
          u,
          found,
          (
            ap (λ (m : ℕ × String × String × String). m.1) same,
            ap (λ (m : ℕ × String × String × String). m.2) same,
            ap (λ (m : ℕ × String × String × String). m.3) same,
          ),
          settled,
        ),
      )
