-- ===== src/Outbox/Examples.antt =====
-- Runs of the outbox worker on a queue of two tasks: the text of asset "a" is indexed, the embedding
-- service refuses asset "b".
use team_harness.Prelude.{◌≡◌, ◌⊎◌, refl, true, none, some, [], ◌∷◌, ◌==◌, arith, if◌then◌else◌}
use team_harness.Prelude.Dict
use team_harness.Prelude.Result.{ok, raise}
use team_harness.Outbox.Tables.{
  pending, in_progress, failed, EmbeddingTask, AssetIndex, Worker, Database, handle_failure,
}
use team_harness.Outbox.{execute_task, run_once, run_times}
use team_harness.Outbox.Rows.{find_task}
use team_harness.Outbox.Lifecycle.{Claim, Step}
use team_harness.Outbox.Runs.{run_once-Step}
use team_harness.Outbox.Settles.{Settled, run_times-Settled}
use team_harness.Outbox.Effects.{Written, execute_task-Written}

abbrev worker : Worker
worker = record {
  embed = λ n content version.
      if content == "bad" then raise "refused" else ok (record { vector = "[1.0]"; dim = 1 });
  upsert = λ n r version. ok "v1_a";
  delete = λ n i version. ok true;
  lease_timeout = 300;
  worker_id = "w1";
  clock = λ n. n;
}

abbrev good : EmbeddingTask
good = record {
  id = 1;
  asset_id = "a";
  task_type = "upsert";
  model_version = "v1";
  status = pending;
  leased_at = none;
  lease_owner = none;
  embedding_id = none;
  retry_count = 0;
  max_retries = 3;
  last_error = none;
  created_at = 5;
  completed_at = none;
}

abbrev bad : EmbeddingTask
bad = record good { id = 2; asset_id = "b"; created_at = 4 }

abbrev asset : AssetIndex
asset = record {
  type_ = "skill";
  owner = "alice";
  scope = "team";
  content_hash = none;
  embedding_id = none;
  active_embedding_version = "v1";
  version = "0.0.1";
  tags = "[]";
  related_to = "[]";
  git_path = "a.md";
  git_commit = "c0";
  module_path = "m";
  category = none;
  status = "active";
  schema_version = 1;
  created_at = 0;
  updated_at = 0;
  indexed_at = 0;
  content_snapshot = "text";
}

abbrev queue : Database
queue = record {
  tasks = good ∷ bad ∷ [];
  assets = ("a", asset) ∷ ("b", record asset { content_snapshot = "bad" }) ∷ [];
  vectors = [];
  bindings = [];
  next_id = 3;
  calls = 0;
  time_at = 0;
}

run_once-Step_example :
    (u : EmbeddingTask) × (find_task 1 (run_once worker 1 queue).0.tasks ≡ some u)
    × ((u ≡ good)
        ⊎ (Claim pending × (u.max_retries ≡ 3) × Step 3 in_progress 0 u.status u.retry_count))
unfolding find_task
run_once-Step_example = run_once-Step worker 1 1 good queue (refl, (refl, tt)) refl

run_times-Settled_example :
    (u : EmbeddingTask) × (find_task 2 (run_times worker 50 3 queue).tasks ≡ some u)
    × Settled u.status
unfolding find_task
run_times-Settled_example =
    run_times-Settled worker 50 2 2 bad queue (refl, (refl, tt)) (omega arith) refl refl
      (omega arith)

execute_task-Written_example : Written queue good "a" (execute_task worker good queue)
execute_task-Written_example = execute_task-Written worker good "a" queue

-- the refused task fails after its third run, the other is done in the first
third_run :
    (u : EmbeddingTask) × (find_task 2 (run_times worker 50 3 queue).tasks ≡ some u)
    × (u.status ≡ failed)
    × (u.retry_count ≡ 3)
unfolding find_task run_times Dict.get handle_failure Dict.put
third_run = (_, refl, refl, refl)
