-- ===== src/Index/Types.antt =====
-- The values of server/infra_db/asset_index.py: the asset of server/common/models.py, the filter of a
-- query, the status that is reported, and the rows in the order of `indexed_at`.
use team_harness.Prelude.{
  ℕ, String, Bool, true, false, not, ◌&&◌, Option, none, some, List, [], ◌∷◌, contains, leb, ◌==◌,
  nonempty, if◌then◌else◌,
}
use team_harness.Prelude.Dict.{Dict}
use team_harness.Outbox.Tables.{
  TaskStatus, AssetIndex, AgentBinding, pending, in_progress, done, failed, orphan_compensated,
  other, or_empty,
}

pub record Platform : Type 0 where
  pub clock : ℕ → ℕ
  pub dumps : List String → String
  pub like : String → String → Bool
  pub on_delete : String → List AgentBinding → List AgentBinding

-- the versions that an AssetIndex service writes
pub record Versions : Type 0 where
  pub active_version : String
  pub shadow_version : String

-- common/models.Asset, with the text of its enumerations
pub record Asset : Type 0 where
  pub id : String
  pub type_ : String
  pub owner : String
  pub scope : String
  pub content : String
  pub content_hash : Option String
  pub tags : List String
  pub version : String
  pub module_path : String
  pub category : Option String
  pub related_to : List String
  pub content_file_ref : Option String
  pub schema_version : ℕ

pub record AssetFilter : Type 0 where
  pub types : List String
  pub module_paths : List String
  pub categories : List String
  pub scopes : List String
  pub owners : List String
  pub statuses : List String
  pub tags_any : List String
  pub module_path_prefix : Option String

pub record AssetStatus : Type 0 where
  pub asset_id : String
  pub status : String
  pub embedding_id : Option String
  pub active_embedding_version : String
  pub indexed_at : ℕ
  pub updated_at : ℕ
  pub git_path : String
  pub git_commit : String
  pub module_path : String

-- set_embedding_versions
abbrev pub set_embedding_versions : String → String → Versions → Versions
set_embedding_versions active shadow v = record { active_version = active; shadow_version = shadow }

-- a or b, of texts
abbrev pub or_text : String → String → String
or_text a b = if nonempty a then a else b

-- status in ["pending", "in_progress"]
abbrev pub is_waiting : TaskStatus → Bool
is_waiting pending = true
is_waiting in_progress = true
is_waiting done = false
is_waiting failed = false
is_waiting orphan_compensated = false
is_waiting (other s) = false

-- ORDER BY indexed_at
unfoldable pub insert_by_indexed : String × AssetIndex → Dict AssetIndex → Dict AssetIndex
insert_by_indexed x [] = x ∷ []
insert_by_indexed x (y ∷ ys) =
    if leb x.1.indexed_at y.1.indexed_at then x ∷ y ∷ ys else y ∷ insert_by_indexed x ys

unfoldable pub order_by_indexed : Dict AssetIndex → Dict AssetIndex
unfolding insert_by_indexed
order_by_indexed [] = []
order_by_indexed (x ∷ xs) = insert_by_indexed x (order_by_indexed xs)

-- column.in_(values), where the filter names values
abbrev pub allows : List String → String → Bool
allows [] s = true
allows (v ∷ vs) s = contains s (v ∷ vs)

-- a missing category is in no list
abbrev pub allows_category : List String → Option String → Bool
allows_category [] c = true
allows_category (v ∷ vs) none = false
allows_category (v ∷ vs) (some c) = contains c (v ∷ vs)

-- AssetFilter.is_empty
abbrev pub is_nil : List String → Bool
is_nil [] = true
is_nil (x ∷ xs) = false

abbrev pub only_active : List String → Bool
only_active [] = false
only_active (x ∷ xs) = (x == "active") && is_nil xs

abbrev pub is_empty : AssetFilter → Bool
is_empty f =
    is_nil f.types
    && is_nil f.module_paths
    && is_nil f.categories
    && is_nil f.scopes
    && is_nil f.owners
    && is_nil f.tags_any
    && not (nonempty (or_empty f.module_path_prefix))
    && only_active f.statuses
