-- ===== src/Outbox/Tables.antt =====
-- The rows of server/infra_db/models.py that the outbox worker of server/infra_db/outbox.py reads and
-- writes, and what it does to single rows and tables.
use team_harness.Prelude.{
  ℕ, suc, ◌+◌, String, Bool, true, false, ◌&&◌, Option, none, some, List, [], ◌∷◌, ltb, leb, eqb,
  ◌==◌, nonempty, if◌then◌else◌,
}
use team_harness.Prelude.Dict.{Dict}
use team_harness.Prelude.Result.{Result, ok, raise}

pub data TaskStatus : Type 0 where
  pending : TaskStatus
  in_progress : TaskStatus
  done : TaskStatus
  failed : TaskStatus
  orphan_compensated : TaskStatus
  other : String → TaskStatus

-- EmbeddingTaskQueue
pub record EmbeddingTask : Type 0 where
  pub id : ℕ
  pub asset_id : String
  pub task_type : String
  pub model_version : String
  pub status : TaskStatus
  pub leased_at : Option ℕ
  pub lease_owner : Option String
  pub embedding_id : Option String
  pub retry_count : ℕ
  pub max_retries : ℕ
  pub last_error : Option String
  pub created_at : ℕ
  pub completed_at : Option ℕ

-- AssetIndex, the row of its id; an empty `active_embedding_version` stands for a missing one, which
-- the code treats alike
pub record AssetIndex : Type 0 where
  pub type_ : String
  pub owner : String
  pub scope : String
  pub content_hash : Option String
  pub embedding_id : Option String
  pub active_embedding_version : String
  pub version : String
  pub tags : String
  pub related_to : String
  pub git_path : String
  pub git_commit : String
  pub module_path : String
  pub category : Option String
  pub status : String
  pub schema_version : ℕ
  pub created_at : ℕ
  pub updated_at : ℕ
  pub indexed_at : ℕ
  pub content_snapshot : String

-- AgentBinding, as far as it is read and written here
pub record AgentBinding : Type 0 where
  pub agent_id : String
  pub asset_id : String
  pub enabled : Bool
  pub invalidated_at : Option ℕ
  pub binding_version : String

-- EmbeddingVector: the table has one row for an asset and a version
pub record EmbeddingVector : Type 0 where
  pub asset_id : String
  pub model_version : String
  pub embedding : String
  pub dim : ℕ
  pub created_at : ℕ

-- EmbeddingResult, with the vector as json.dumps writes it
pub record EmbeddingResult : Type 0 where
  pub vector : String
  pub dim : ℕ

pub record VectorRecord : Type 0 where
  pub asset_id : String
  pub vector : String
  pub dim : ℕ
  pub metadata : Dict String

pub record Worker : Type 0 where
  pub embed : ℕ → String → String → Result EmbeddingResult
  pub upsert : ℕ → VectorRecord → String → Result String
  pub delete : ℕ → String → String → Result Bool
  pub lease_timeout : ℕ
  pub worker_id : String
  pub clock : ℕ → ℕ

-- the tables, and the places of the streams
pub record Database : Type 0 where
  pub tasks : List EmbeddingTask
  pub assets : Dict AssetIndex
  pub vectors : List EmbeddingVector
  pub bindings : List AgentBinding
  -- the id of the next row of the queue
  pub next_id : ℕ
  pub calls : ℕ
  pub time_at : ℕ

-- UPDATE ... WHERE id = task.id
unfoldable pub save : EmbeddingTask → List EmbeddingTask → List EmbeddingTask
save t [] = []
save t (u ∷ us) = (if eqb u.id t.id then t else u) ∷ save t us

unfoldable pub save_all : List EmbeddingTask → List EmbeddingTask → List EmbeddingTask
unfolding save
save_all [] ts = ts
save_all (t ∷ more) ts = save_all more (save t ts)

-- ORDER BY created_at
unfoldable pub insert_by_created : EmbeddingTask → List EmbeddingTask → List EmbeddingTask
insert_by_created t [] = t ∷ []
insert_by_created t (u ∷ us) =
    if leb t.created_at u.created_at then t ∷ u ∷ us else u ∷ insert_by_created t us

unfoldable pub order_by_created : List EmbeddingTask → List EmbeddingTask
unfolding insert_by_created
order_by_created [] = []
order_by_created (t ∷ ts) = insert_by_created t (order_by_created ts)

-- leased_at < now - lease_timeout
abbrev pub lease_expired : ℕ → ℕ → Option ℕ → Bool
lease_expired lease_timeout now none = false
lease_expired lease_timeout now (some at) = ltb (at + lease_timeout) now

abbrev pub is_claimable : ℕ → ℕ → TaskStatus → Option ℕ → Bool
is_claimable lease_timeout now pending leased_at = true
is_claimable lease_timeout now in_progress leased_at = lease_expired lease_timeout now leased_at
is_claimable lease_timeout now done leased_at = false
is_claimable lease_timeout now failed leased_at = false
is_claimable lease_timeout now orphan_compensated leased_at = false
is_claimable lease_timeout now (other s) leased_at = false

-- the `where` on the tracking table
abbrev pub is_track : String → String → EmbeddingVector → Bool
is_track asset_id model_version v = (v.asset_id == asset_id) && (v.model_version == model_version)

-- _delete_embedding_track
abbrev pub delete_embedding_track : String → String → List EmbeddingVector → List EmbeddingVector
delete_embedding_track asset_id model_version [] = []
delete_embedding_track asset_id model_version (v ∷ vs) =
    let rest = delete_embedding_track asset_id model_version vs in
    if is_track asset_id model_version v then vs else v ∷ rest

-- _upsert_embedding_track
unfoldable pub upsert_embedding_track :
    ℕ → String → String → EmbeddingResult → List EmbeddingVector → List EmbeddingVector
upsert_embedding_track now asset_id model_version emb [] =
    record {
      asset_id = asset_id;
      model_version = model_version;
      embedding = emb.vector;
      dim = emb.dim;
      created_at = now;
    }
    ∷ []
upsert_embedding_track now asset_id model_version emb (v ∷ vs) =
    let rest = upsert_embedding_track now asset_id model_version emb vs in
    if is_track asset_id model_version v
    then record v { embedding = emb.vector; dim = emb.dim; created_at = now } ∷ vs
    else v ∷ rest

-- _handle_failure
-- `exc` is the exception with the name of its type before it
unfoldable pub handle_failure : String → EmbeddingTask → EmbeddingTask
handle_failure exc t =
    if leb t.max_retries (suc t.retry_count)
    then record t { retry_count = suc t.retry_count; last_error = some exc; status = failed }
    else record t {
      retry_count = suc t.retry_count;
      last_error = some exc;
      status = pending;
      leased_at = none;
      lease_owner = none;
    }

-- category or ""
abbrev pub or_empty : Option String → String
or_empty none = ""
or_empty (some s) = s

-- the metadata of the record that goes to the vector store
abbrev pub metadata_of : AssetIndex → EmbeddingTask → Dict String
metadata_of a t =
    ("module_path", a.module_path)
    ∷ ("category", or_empty a.category)
    ∷ ("type", a.type_)
    ∷ ("owner", a.owner)
    ∷ ("scope", a.scope)
    ∷ ("model_version", t.model_version)
    ∷ []

abbrev pub called : Database → Database
called db = record db { calls = suc db.calls }

-- the row that is written back where the task's version is the active one
abbrev pub is_active_for : AssetIndex → EmbeddingTask → Bool
is_active_for a t =
    nonempty a.active_embedding_version && (a.active_embedding_version == t.model_version)

-- `try: ... except Exception`: the row that is kept, and what is added to `processed`
abbrev pub settled : EmbeddingTask → Database × Result EmbeddingTask → Database × EmbeddingTask × ℕ
settled t (db, ok u) = (db, u, 1)
settled t (db, raise e) = (db, handle_failure e t, 0)
