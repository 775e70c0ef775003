-- ===== src/Index/Examples.antt =====
-- Runs of the asset index: two active assets, of which "a" has a vector, and a migration from "v1" to
-- "v2".
use team_harness.Prelude.{
  ◌+◌, ◌≤◌, ◌≡◌, ◌≢◌, refl, ap, sym, some-injective, true, false, ◌||◌, none, some, List, [], ◌∷◌,
  ◌++◌, contains, leb, ltb, length, ◌<◌, ◌⊎◌, ◌==◌, String, arith,
}
use team_harness.Prelude.Dict
use team_harness.Prelude.Dict.{keys}
use team_harness.Prelude.Result.{ok, raise}
use team_harness.Outbox.Tables.{
  EmbeddingTask, AssetIndex, AgentBinding, EmbeddingVector, Worker, Database, pending,
}
use team_harness.Outbox.{run_times}
use team_harness.Outbox.Rows.{find_task}
use team_harness.Outbox.Settles.{Settled}
use team_harness.Index.Types.{Platform, Versions, Asset}
use team_harness.Index.{upsert, delete}
use team_harness.Index.Queue.{has_waiting, IsQueue}
use team_harness.Index.Writes.{IsUpsertOf, KeepsVector, upsert-Indexed, upsert-Settled}
use team_harness.Index.Bindings.{IsBound, Gone, delete-Gone}
use team_harness.Index.History.{write, remove, run, Grown, run-IsBound}
use team_harness.Index.Query.{is_stale_null}
use team_harness.Index.Reconcile
use team_harness.Index.Reconcile.Covers.{Grows, run-Covers}
use team_harness.Index.Migration.Types.{Migration}
use team_harness.Index.Migration.{
  start_migration, rollback_migration, migrate_batch, migrate_batches, switch_active, candidates,
  have_ids, waiting_ids, verify_progress, run_reconcile_embedding,
}
use team_harness.Index.Migration.Starves.{
  scanned_rows, has_task, has_vector, migrate_batch-Covers, migrate_batches-starve,
}
use team_harness.Index.Migration.Switch.{switch_active-Compensated}
use team_harness.Index.Migration.Rollback.{keys_of, rollback-restart}
use team_harness.Index.Cron.{IndexSyncState, Services}
use team_harness.Index.Cron
use team_harness.Index.Cron.Lag.{run_times-lag}

abbrev platform : Platform
platform = record {
  clock = λ n. 10000 + n;
  dumps = λ xs. "[]";
  like = λ pattern text. false;
  on_delete = λ i bs. bs;
}

abbrev versions : Versions
versions = record { active_version = "v1"; shadow_version = "" }

abbrev row : AssetIndex
row = record {
  type_ = "skill";
  owner = "alice";
  scope = "team";
  content_hash = none;
  embedding_id = none;
  active_embedding_version = "v1";
  version = "0.0.1";
  tags = "[]";
  related_to = "[]";
  git_path = "a.md";
  git_commit = "c0";
  module_path = "m";
  category = none;
  status = "active";
  schema_version = 1;
  created_at = 0;
  updated_at = 0;
  indexed_at = 0;
  content_snapshot = "text";
}

abbrev binding : AgentBinding
binding = record {
  agent_id = "g";
  asset_id = "a";
  enabled = true;
  invalidated_at = none;
  binding_version = "0.0.1";
}

abbrev vector : EmbeddingVector
vector = record {
  asset_id = "a";
  model_version = "v1";
  embedding = "[1.0]";
  dim = 1;
  created_at = 0;
}

abbrev database : Database
database = record {
  tasks = [];
  assets = ("a", record row { embedding_id = some "v1_a" }) ∷ ("b", row) ∷ [];
  vectors = vector ∷ [];
  bindings = binding ∷ [];
  next_id = 1;
  calls = 0;
  time_at = 0;
}

abbrev asset : Asset
asset = record {
  id = "a";
  type_ = "skill";
  owner = "alice";
  scope = "team";
  content = "new text";
  content_hash = none;
  tags = [];
  version = "0.0.2";
  module_path = "m";
  category = none;
  related_to = [];
  content_file_ref = none;
  schema_version = 1;
}

upsert-Indexed_example :
    let after = (upsert platform versions asset "c1" "" true database).0 in
    ((r : AssetIndex) × (Dict.get "a" after.assets ≡ some r)
      × (r.status ≡ "active")
      × (r.active_embedding_version ≡ "v1")
      × (r.content_snapshot ≡ "new text")
      × KeepsVector versions (Dict.get "a" database.assets) r)
    × ((j : String) → j ≢ "a" → Dict.get j after.assets ≡ Dict.get j database.assets)
    × (after.vectors ≡ database.vectors)
    × (after.bindings ≡ database.bindings)
    × ((us : List EmbeddingTask) × (after.tasks ≡ database.tasks ++ us)
        × (has_waiting "a" "v1" us ≡ true))
upsert-Indexed_example = upsert-Indexed platform versions asset "c1" "" true database

-- the embedding service refuses every text
abbrev worker : Worker
worker = record {
  embed = λ n content version. raise "refused";
  upsert = λ n r version. ok "v1_a";
  delete = λ n i version. ok true;
  lease_timeout = 300;
  worker_id = "w1";
  clock = λ n. n;
}

upsert-Settled_example :
    let after = (upsert platform versions asset "c1" "" true database).0 in
    ((t : EmbeddingTask) × (find_task 1 after.tasks ≡ some t)
      × IsUpsertOf "a" "v1" t
      × (t.status ≡ pending))
    × ((u : EmbeddingTask) × (find_task 1 (run_times worker 50 3 after).tasks ≡ some u)
        × IsUpsertOf "a" "v1" u
        × Settled u.status)
unfolding upsert
upsert-Settled_example =
    upsert-Settled platform versions asset "c1" "" database worker 50 (tt, tt) (omega arith)

first_active :
    (r : AssetIndex) → Dict.get "a" database.assets ≡ some r → (r.status == "deleted") ≡ false
unfolding Dict.get
first_active r at = ap (λ (x : AssetIndex). x.status == "deleted") (some-injective (sym at))

database-IsBound : IsBound database
database-IsBound = ((λ on r at. first_active r at), tt)

run-IsBound_example :
    let after =
      run platform versions
        (remove "a" true true ∷ write asset "c1" "" true ∷ remove "b" false true ∷ [])
        database in
    IsBound after × IsQueue after × Grown platform versions database after
run-IsBound_example =
    run-IsBound platform versions
      (remove "a" true true ∷ write asset "c1" "" true ∷ remove "b" false true ∷ []) database
      (λ i P bs h. h) database-IsBound (tt, tt)

delete-Gone_example :
    let (after, found) = delete platform versions "a" true true database in
    (found ≡ true)
    × Gone true "a" after
    × IsBound after
    × IsQueue after
    × ((us : List EmbeddingTask) × (after.tasks ≡ database.tasks ++ us)
        × (has_waiting "a" "v1" us ≡ true))
unfolding Dict.get
delete-Gone_example =
    delete-Gone platform versions "a" true true (record row { embedding_id = some "v1_a" }) database
      (λ i P bs h. h) refl database-IsBound (tt, tt)

run-Covers_example :
    let (after, r) = Reconcile.run platform versions 3600 500 database in
    Grows versions r.requeued database after
    × (r.requeued ≤ r.scanned)
    × ((k : String) (x : AssetIndex)
        → Dict.get k database.assets ≡ some x
        → is_stale_null platform 10000 3600 x ≡ true
        → has_waiting k "v1" after.tasks ≡ true)
run-Covers_example = run-Covers platform versions 3600 500 database (omega arith)

-- "b" has no vector: it is the one that is put into the queue
requeued_one :
    (Reconcile.run platform versions 3600 500 database).1
    ≡ record { scanned = 1; requeued = 1; still_null = 1 }
unfolding Reconcile.run
requeued_one = refl

-- the migration to "v2" has begun; `batch` rows are scanned at once
abbrev migration : Migration
migration = record {
  db = database;
  index = record { active_version = "v1"; shadow_version = "v2" };
  embedding = record { active_version = "v1"; shadow_version = "v2" };
  store = record { model_version = "v1"; asset_id = "a" } ∷ [];
}

migrate_batch-Covers_example :
    let (after, r) = migrate_batch platform 10 migration in
    ((k : String)
      → contains k (keys (scanned_rows 10 migration)) ≡ true
      → (has_vector k after || has_task k after) ≡ true)
    × ((k : String)
        → contains k (keys (scanned_rows 10 migration)) ≡ false
        → has_task k after ≡ has_task k migration)
    × (after.embedding ≡ migration.embedding)
    × (after.db.assets ≡ database.assets)
    × (after.db.vectors ≡ database.vectors)
    × (r.enqueued + r.already_done ≤ r.scanned)
migrate_batch-Covers_example = migrate_batch-Covers platform 10 migration refl

-- a batch of one row: "b" is never reached, and the loop stops
migrate_batches-starve_example :
    let after = migrate_batches platform 1 5 migration in
    (has_task "b" after ≡ false)
    × (has_vector "b" after ≡ false)
    × ((migrate_batch platform 1 after).1.enqueued ≡ 0)
unfolding candidates waiting_ids have_ids
migrate_batches-starve_example =
    migrate_batches-starve platform 1 4 "b" migration refl refl refl refl

-- one asset, of which the vector of "v2" is made
abbrev migrated : Migration
migrated = record migration {
  db = record database {
    assets = ("a", row) ∷ [];
    vectors = record vector { model_version = "v2" } ∷ vector ∷ [];
  };
  store = record { model_version = "v2"; asset_id = "a" } ∷ [];
}

rollback-restart_example :
    let again = (start_migration "v2" (rollback_migration migrated)).0 in
    (keys_of "v2" again.store ≡ [])
    × ((migrate_batch platform 10 again).1.enqueued ≡ 0)
    × ((migrate_batch platform 10 again).0.db ≡ again.db)
    × ((verify_progress again).ready_to_switch ≡ true)
unfolding candidates have_ids verify_progress
rollback-restart_example =
    rollback-restart platform 10 migrated refl refl (λ k at. ground (arith, at)) refl

switch_active-Compensated_example :
    let after = switch_active platform "v2" migration in
    ((r : AssetIndex) × (Dict.get "b" after.db.assets ≡ some r)
      × (r.embedding_id ≡ none)
      × (r.active_embedding_version ≡ "v2")
      × (r.content_snapshot ≡ "text"))
    × (after.embedding.active_version ≡ "v2")
    × (after.index.active_version ≡ "v2")
    × (after.db.tasks ≡ database.tasks)
    × ((500 < length migration.db.assets)
        ⊎ (ltb (row.indexed_at + 3600) (platform.clock after.db.time_at) ≡ false)
        ⊎ (has_waiting "b" "v2" (run_reconcile_embedding platform 3600 after).0.tasks ≡ true))
unfolding Dict.get switch_active
switch_active-Compensated_example =
    switch_active-Compensated platform "v2" 3600 migration "b" row refl refl refl

-- the head moves on, and no synchronisation succeeds
abbrev failing : Services
failing = record {
  head = λ n. ok "c9";
  trigger_sync = λ n head r. (r, raise "no git");
  lag_threshold = 3;
}

abbrev synced : IndexSyncState
synced = record { last_synced_commit = "c1"; status = "ok"; lag_periods = 0 }

run_times-lag_example :
    let after = Cron.run_times failing 2 (some synced) in
    let r = (Cron.run_once failing 2 after).1 in
    ((now : IndexSyncState) × (after ≡ some now)
      × (now.lag_periods ≡ 0 + 2)
      × (now.last_synced_commit ≡ "c1"))
    × (r.triggered_sync ≡ true)
    × (r.lag_periods ≡ 0 + 2 + 1)
    × (r.alert_lagging ≡ leb 3 (0 + 2 + 1))
run_times-lag_example =
    run_times-lag failing 2 "c1" synced
      (λ n r at. ("c9", raise "no git", refl, refl, ap (λ c. c == "c9") at, refl, refl)) refl
