-- ===== src/Index/Bindings.antt =====
-- The bindings of server/infra_db/models.py beside the asset index: a deletion disables them with the
-- row, so no enabled binding is left to an asset that is marked as deleted.
use team_harness.Prelude.{
  ℕ, ◌≡◌, ◌≢◌, refl, ap, sym, subst, ◌∙◌, String, Bool, true, false, ◌&&◌, none, some, List, [],
  ◌∷◌, append-nil, All, All-map, ◌==◌, ==_iff, ==_refl, arith, if◌then◌else◌, Bool-cases,
  some-injective, inl, inr, ◌++◌,
}
use team_harness.Prelude.Dict
use team_harness.Prelude.Dict.{Dict}
use team_harness.Outbox.Tables.{EmbeddingTask, AssetIndex, AgentBinding, Database}
use team_harness.Index.Types.{Platform, Versions, Asset}
use team_harness.Index.{upsert, delete, disable_bindings, mark_deleted, drop_row, enqueue_versions}
use team_harness.Index.Queue.{
  IsQueue, enqueue_versions-IsQueue, enqueue_versions-assets, enqueue_versions-tasks, added,
  has_waiting, has_waiting-added,
}
use team_harness.Index.Writes.{upsert-Indexed}

-- an enabled binding is to no asset that is marked as deleted
abbrev pub IsLive : Dict AssetIndex → AgentBinding → Type 0
IsLive assets b =
    b.enabled ≡ true
    → (row : AssetIndex) → Dict.get b.asset_id assets ≡ some row
    → (row.status == "deleted") ≡ false

abbrev pub IsBound : Database → Type 0
IsBound db = All (IsLive db.assets) db.bindings

-- what holds of every binding that the database keeps
abbrev pub OnlyDeletes : Platform → Type 1
OnlyDeletes p =
    (i : String) (P : AgentBinding → Type 0) (bs : List AgentBinding)
    → All P bs
    → All P (p.on_delete i bs)

disable_bindings-All :
    (p : Platform) (i : String) (now : ℕ) (d e : Dict AssetIndex) (bs : List AgentBinding)
    → ((j : String) → j ≢ i → Dict.get j e ≡ Dict.get j d)
    → All (IsLive d) bs
    → All (IsLive e) (disable_bindings p i now bs)
unfolding disable_bindings
disable_bindings-All p i now d e [] same h = tt
disable_bindings-All p i now d e (b ∷ bs) same (live, h) = (
  elim (Bool-cases (b.asset_id == i)) [
    | inl is ↦ elim (Bool-cases b.enabled) [
      | inl on ↦ rw (is, on) (λ impossible. absurd (cc))
      | inr off ↦ λ on. absurd (ground arith)
    ]
    | inr other ↦ rw other (λ on row at.
        live on row
          (sym (same b.asset_id (λ eq. absurd (cc (other, (==_iff b.asset_id i).1 eq)))) ∙ at))
  ],
  disable_bindings-All p i now d e bs same h,
)

-- no binding to the asset is enabled
abbrev pub IsUnbound : String → List AgentBinding → Type 0
IsUnbound i bs = All (λ (b : AgentBinding). (b.asset_id == i) && b.enabled ≡ false) bs

disable_bindings-IsUnbound :
    (p : Platform) (i : String) (now : ℕ) (bs : List AgentBinding)
    → IsUnbound i (disable_bindings p i now bs)
unfolding disable_bindings
disable_bindings-IsUnbound p i now [] = tt
disable_bindings-IsUnbound p i now (b ∷ bs) = (ground arith, disable_bindings-IsUnbound p i now bs)

-- the database once the row is removed
removed : Platform → Bool → String → AssetIndex → Database → Database
removed p soft_delete i row db = if soft_delete then mark_deleted p i row db else drop_row p i db

module _ (p : Platform) (v : Versions) where
  removed-IsBound :
      (soft_delete : Bool) (i : String) (row : AssetIndex) (db : Database)
      → OnlyDeletes p
      → IsBound db
      → IsBound (removed p soft_delete i row db)
  unfolding removed
  removed-IsBound true i row db only h =
      disable_bindings-All p i _ db.assets _ db.bindings
        (λ j ne. Dict.get-put_other i j _ db.assets ne) h
  removed-IsBound false i row db only h =
      only i (IsLive (drop_row p i db).assets) db.bindings
        (All-map db.bindings (λ b live on r at. live on r (kept b r at)) h)
    where
      kept :
          (b : AgentBinding) (r : AssetIndex)
          → Dict.get b.asset_id (Dict.remove i db.assets) ≡ some r
          → Dict.get b.asset_id db.assets ≡ some r
      kept b r at = ground (arith, Dict.get-remove i b.asset_id db.assets)

  -- what the deletion adds to the queue
  deleted-tasks :
      (b : Bool) (i : String) (db : Database)
      → let after = if b then enqueue_versions p v i "delete" db else db in
        (after.assets ≡ db.assets)
        × (after.bindings ≡ db.bindings)
        × ((us : List EmbeddingTask) × (after.tasks ≡ db.tasks ++ us)
            × (has_waiting i v.active_version us ≡ b))
        × (IsQueue db → IsQueue after)
  unfolding has_waiting
  deleted-tasks true i db =
      let (assets, vectors, bindings) = enqueue_versions-assets p v i "delete" db in
      (
        assets,
        bindings,
        (
          added p v i "delete" db,
          enqueue_versions-tasks p v i "delete" db,
          has_waiting-added p v i "delete" db,
        ),
        enqueue_versions-IsQueue p v i "delete" db,
      )
  deleted-tasks false i db = (refl, refl, ([], sym (append-nil db.tasks), refl), λ h. h)

  delete-some :
      (i : String) (soft_delete b : Bool) (row : AssetIndex) (db : Database)
      → Dict.get i db.assets ≡ some row
      → delete p v i soft_delete b db ≡ (
          let after = removed p soft_delete i row db in
          (if b then enqueue_versions p v i "delete" after else after, true))
  unfolding removed delete
  delete-some i soft_delete b row db at = rw (at, delete) refl

  delete-none :
      (i : String) (soft_delete b : Bool) (db : Database)
      → Dict.get i db.assets ≡ none
      → delete p v i soft_delete b db ≡ (db, false)
  unfolding delete
  delete-none i soft_delete b db at = rw (at, delete) refl

-- a soft deletion marks the row and disables its bindings, a hard one removes the row
abbrev pub Gone : Bool → String → Database → Type 0
Gone true i db =
    ((row : AssetIndex) × (Dict.get i db.assets ≡ some row) × (row.status ≡ "deleted"))
    × IsUnbound i db.bindings
Gone false i db = Dict.get i db.assets ≡ none

removed-Gone :
    (p : Platform) (soft_delete : Bool) (i : String) (row : AssetIndex) (db : Database)
    → Gone soft_delete i (removed p soft_delete i row db)
unfolding removed
removed-Gone p true i row db =
    ((_, Dict.get-put_self i _ db.assets, refl), disable_bindings-IsUnbound p i _ db.bindings)
removed-Gone p false i row db = Dict.get-remove i i db.assets ∙ rw (==_refl i) refl

Gone-same :
    (soft_delete : Bool) (i : String) (db after : Database)
    → after.assets ≡ db.assets
    → after.bindings ≡ db.bindings
    → Gone soft_delete i db
    → Gone soft_delete i after
Gone-same true i db after assets bindings ((row, at, deleted), unbound) =
    ((row, ap (Dict.get i) assets ∙ at, deleted), subst (IsUnbound i) (sym bindings) unbound)
Gone-same false i db after assets bindings at = ap (Dict.get i) assets ∙ at

IsBound-same :
    (db after : Database)
    → after.assets ≡ db.assets
    → after.bindings ≡ db.bindings
    → IsBound db
    → IsBound after
IsBound-same db after assets bindings h =
    subst (λ d. All (IsLive d) after.bindings) (sym assets)
      (subst (All (IsLive db.assets)) (sym bindings) h)

removed-tasks :
    (p : Platform) (soft_delete : Bool) (i : String) (row : AssetIndex) (db : Database)
    → ((removed p soft_delete i row db).tasks ≡ db.tasks)
      × (IsQueue db → IsQueue (removed p soft_delete i row db))
unfolding removed
removed-tasks p true i row db = (refl, λ h. h)
removed-tasks p false i row db = (refl, λ h. h)

-- Where the database only deletes bindings with a row, `delete` of a known asset marks the row and
-- disables all its bindings, or removes the row. No enabled binding is then left to an asset that
-- is marked as deleted, the ids of the queue stay a key with a new next id, and the queue grows by
-- a waiting task of the active version if and only if one is asked for.
pub delete-Gone :
    (p : Platform) (v : Versions) (i : String) (soft_delete b : Bool) (row : AssetIndex)
    (db : Database)
    → OnlyDeletes p
    → Dict.get i db.assets ≡ some row
    → IsBound db
    → IsQueue db
    → let (after, found) = delete p v i soft_delete b db in
      (found ≡ true)
      × Gone soft_delete i after
      × IsBound after
      × IsQueue after
      × ((us : List EmbeddingTask) × (after.tasks ≡ db.tasks ++ us)
          × (has_waiting i v.active_version us ≡ b))
delete-Gone p v i soft_delete b row db only at bound queue =
    let r = removed p soft_delete i row db in
    let (assets, bindings, (us, tasks, waits), keeps) = deleted-tasks p v b i r in
    let (same, still) = removed-tasks p soft_delete i row db in
    rw (delete-some p v i soft_delete b row db at) (
      refl,
      Gone-same soft_delete i r _ assets bindings (removed-Gone p soft_delete i row db),
      IsBound-same r (if b then enqueue_versions p v i "delete" r else r) assets bindings
          (removed-IsBound p v soft_delete i row db only bound),
      keeps (still queue),
      (us, tasks ∙ ap (λ ts. ts ++ us) same, waits),
    )

-- A write of a row enables no binding, and its row is active.
pub upsert-IsBound :
    (p : Platform) (v : Versions) (a : Asset) (git_commit content_snapshot : String) (b : Bool)
    (db : Database)
    → IsBound db
    → IsBound (upsert p v a git_commit content_snapshot b db).0
upsert-IsBound p v a git_commit content_snapshot b db bound =
    let after = (upsert p v a git_commit content_snapshot b db).0 in
    let ((row, at, active, _, _, _), others, _, bindings, _) =
      upsert-Indexed p v a git_commit content_snapshot b db in
    subst (All (IsLive after.assets)) (sym bindings) (
      All-map db.bindings
        (λ c live on r there. elim (Bool-cases (c.asset_id == a.id)) [
          | inl is ↦
              let same : Dict.get c.asset_id after.assets ≡ Dict.get a.id after.assets =
                ap (λ k. Dict.get k after.assets) ((==_iff c.asset_id a.id).0 is) in
              let eq : r ≡ row = some-injective (sym there ∙ same ∙ at) in
              ap (λ (x : AssetIndex). x.status == "deleted") eq ∙ ap (λ s. s == "deleted") active
          | inr other ↦ live on r (
              sym (others c.asset_id (λ eq. absurd (cc (other, (==_iff c.asset_id a.id).1 eq))))
              ∙ there)
        ])
        bound)
