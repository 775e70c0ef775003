-- ===== src/Index/Migration/Types.antt =====
-- The versions of server/infra_db/embedding.py, and the state and the results of
-- server/infra_db/embedding_migration.py.
use team_harness.Prelude.{ℕ, String, Bool, not, List, select, ◌==◌, if◌then◌else◌}
use team_harness.Prelude.Result.{Result, ok, raise}
use team_harness.Outbox.Tables.{Database}
use team_harness.Index.Types.{Versions}

-- the versions of EmbeddingService
pub record EmbeddingService : Type 0 where
  pub active_version : String
  pub shadow_version : String

-- EmbeddingService.switch_active_version
abbrev pub switch_active_version : String → EmbeddingService → EmbeddingService
switch_active_version new_active e = record {
  active_version = new_active;
  shadow_version = if e.shadow_version == new_active then "" else e.shadow_version;
}

-- EmbeddingService.start_shadow_write
abbrev pub start_shadow_write : String → EmbeddingService → Result EmbeddingService
start_shadow_write shadow_version e =
    if shadow_version == e.active_version
    then raise "ValueError"
    else ok (record e { shadow_version = shadow_version })

-- EmbeddingService.stop_shadow_write
abbrev pub stop_shadow_write : EmbeddingService → EmbeddingService
stop_shadow_write e = record e { shadow_version = "" }

-- a key of InMemoryVectorStore
pub record VectorKey : Type 0 where
  pub model_version : String
  pub asset_id : String

-- EmbeddingMigration, with what it works on
pub record Migration : Type 0 where
  pub db : Database
  pub index : Versions
  pub embedding : EmbeddingService
  pub store : List VectorKey

pub record MigrateBatchResult : Type 0 where
  pub scanned : ℕ
  pub enqueued : ℕ
  pub already_done : ℕ

pub record MigrationProgress : Type 0 where
  pub active_version : String
  pub shadow_version : String
  pub total_assets : ℕ
  pub active_embedding_count : ℕ
  pub shadow_embedding_count : ℕ
  pub pending_tasks : ℕ
  pub ready_to_switch : Bool

-- _drop_collection, of the memory backend
abbrev pub drop_collection : String → List VectorKey → List VectorKey
drop_collection version keys = select (λ (k : VectorKey). not (k.model_version == version)) keys
