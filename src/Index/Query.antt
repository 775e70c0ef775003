-- ===== src/Index/Query.antt =====
-- The readings of server/infra_db/asset_index.py: the query, the status of an asset, the rows that
-- have no vector, and the rows of a module, for which it enqueues new tasks.
use Prim.Native.String.{◌++◌ as str_append}
use mathlib.Core.Option
use team_harness.Prelude.{
  ℕ, suc, ◌+◌, String, Bool, true, false, not, ◌&&◌, ◌||◌, Option, none, some, List, [], ◌∷◌,
  select, take, is_some, ltb, ◌==◌, nonempty, if◌then◌else◌,
}
use team_harness.Prelude.Dict
use team_harness.Prelude.Dict.{Dict}
use team_harness.Outbox.Tables.{AssetIndex, Database}
use team_harness.Index.Types.{
  Platform, Versions, AssetFilter, AssetStatus, order_by_indexed, allows, allows_category, is_nil,
}
use team_harness.Index.{enqueue}

module _ (p : Platform) where
  -- module_path LIKE 'prefix%'
  abbrev pub under_prefix : Option String → String → Bool
  under_prefix none path = true
  under_prefix (some prefix) path =
      if nonempty prefix then p.like (str_append prefix "%") path else true

  -- any of `tags LIKE '%"t"%'`
  abbrev pub has_tag : List String → String → Bool
  has_tag [] tags = false
  has_tag (t ∷ ts) tags = p.like (str_append "%\"" (str_append t "\"%")) tags || has_tag ts tags

  abbrev pub allows_tags : List String → String → Bool
  allows_tags ts tags = is_nil ts || has_tag ts tags

  unfoldable pub matches : AssetFilter → AssetIndex → Bool
  matches f row =
      allows f.types row.type_
      && allows f.module_paths row.module_path
      && under_prefix f.module_path_prefix row.module_path
      && allows_category f.categories row.category
      && allows f.scopes row.scope
      && allows f.owners row.owner
      && allows f.statuses row.status
      && allows_tags f.tags_any row.tags

  unfoldable pub query : AssetFilter → ℕ → Database → Dict AssetIndex
  unfolding matches
  query f limit db = take limit (select (λ (x : String × AssetIndex). matches f x.1) db.assets)

  -- the filter of list_null_embedding, with the cutoff
  abbrev pub is_stale_null : ℕ → ℕ → AssetIndex → Bool
  is_stale_null now stale_seconds row =
      not (is_some row.embedding_id)
      && (row.status == "active")
      && ltb (row.indexed_at + stale_seconds) now

  unfoldable pub null_rows : ℕ → ℕ → Database → Dict AssetIndex
  unfolding order_by_indexed
  null_rows stale_seconds limit db = take limit (
      order_by_indexed (
        select (λ (x : String × AssetIndex). is_stale_null (p.clock db.time_at) stale_seconds x.1)
          db.assets))

  unfoldable pub list_null_embedding : ℕ → ℕ → Database → Database × Dict AssetIndex
  unfolding null_rows
  list_null_embedding stale_seconds limit db =
      (record db { time_at = suc db.time_at }, null_rows stale_seconds limit db)

  -- the rows of the module that are active
  abbrev pub in_module : String → AssetIndex → Bool
  in_module module_path row = (row.module_path == module_path) && (row.status == "active")

  unfoldable pub enqueue_reindex : Versions → Dict AssetIndex → ℕ → Database → Database × ℕ
  unfolding enqueue
  enqueue_reindex v [] count db = (db, count)
  enqueue_reindex v ((i, row) ∷ rows) count db =
      enqueue_reindex v rows (suc count) (enqueue p i "reindex" v.active_version db)

  unfoldable pub reindex_module : Versions → String → Database → Database × ℕ
  unfolding enqueue_reindex
  reindex_module v module_path db =
      enqueue_reindex v (select (λ (x : String × AssetIndex). in_module module_path x.1) db.assets)
        0 db

-- get_status
abbrev pub status_of : String → AssetIndex → AssetStatus
status_of asset_id row = record {
  asset_id = asset_id;
  status = row.status;
  embedding_id = row.embedding_id;
  active_embedding_version = row.active_embedding_version;
  indexed_at = row.indexed_at;
  updated_at = row.updated_at;
  git_path = row.git_path;
  git_commit = row.git_commit;
  module_path = row.module_path;
}

abbrev pub get_status : String → Database → Option AssetStatus
get_status asset_id db = Option.map (status_of asset_id) (Dict.get asset_id db.assets)

abbrev pub get_by_id : String → Database → Option AssetIndex
get_by_id asset_id db = Dict.get asset_id db.assets
