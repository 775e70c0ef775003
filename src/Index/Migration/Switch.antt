-- ===== src/Index/Migration/Switch.antt =====
-- The change of the active version in server/infra_db/embedding_migration.py, followed by the
-- compensation of server/infra_db/sync.py, which gives each active asset a task of the new version.
use team_harness.Prelude.{
  ℕ, suc, ◌+◌, ◌≤◌, ◌<◌, ◌≡◌, ◌⊎◌, refl, ap, ◌∙◌, String, true, false, none, some, [], ◌∷◌, length,
  ltb, leb, ◌==◌, ==_iff, arith, if◌then◌else◌, Bool-cases, some-injective, inl, inr,
}
use team_harness.Prelude.Dict
use team_harness.Prelude.Dict.{Dict}
use team_harness.Outbox.Tables.{AssetIndex}
use team_harness.Index.Types.{Platform, Versions}
use team_harness.Index.Queue.{has_waiting}
use team_harness.Index.Reconcile.Covers.{run-Covers}
use team_harness.Index.Migration.Types.{Migration, switch_active_version}
use team_harness.Index.Migration.{reset_versions, switch_active, run_reconcile_embedding}

get-reset_versions :
    (new_active k : String) (now : ℕ) (row : AssetIndex) (d : Dict AssetIndex)
    → Dict.get k d ≡ some row
    → row.status ≡ "active"
    → Dict.get k (reset_versions new_active now d)
      ≡ some (record row {
        active_embedding_version = new_active;
        embedding_id = none;
        updated_at = now;
      })
unfolding Dict.get reset_versions
get-reset_versions new_active k now row [] there active = absurd (cc)
get-reset_versions new_active k now row ((j, r) ∷ d) there active = elim (Bool-cases (j == k)) [
  | inl same ↦
      let eq : r ≡ row = some-injective (rw same at there) in
      rw same (
        ap
          (λ (x : AssetIndex). some (
            if x.status == "active"
            then record x {
              active_embedding_version = new_active;
              embedding_id = none;
              updated_at = now;
            }
            else x))
          eq
        ∙ rw active refl)
  | inr other ↦ rw other (get-reset_versions new_active k now row d (rw other at there) active)
]

length-reset_versions :
    (new_active : String) (now : ℕ) (d : Dict AssetIndex)
    → length (reset_versions new_active now d) ≡ length d
unfolding reset_versions
length-reset_versions new_active now [] = refl
length-reset_versions new_active now ((i, row) ∷ d) =
    ap suc (length-reset_versions new_active now d)

-- an asset that is listed has a task of the version of the moment
run_reconcile_embedding-covers :
    (p : Platform) (stale_seconds : ℕ) (m : Migration) (k : String) (r : AssetIndex)
    → length m.db.assets ≤ 500
    → Dict.get k m.db.assets ≡ some r
    → r.embedding_id ≡ none
    → r.status ≡ "active"
    → ltb (r.indexed_at + stale_seconds) (p.clock m.db.time_at) ≡ true
    → has_waiting k m.embedding.active_version (run_reconcile_embedding p stale_seconds m).0.tasks
      ≡ true
run_reconcile_embedding-covers p stale_seconds m k r few there null active stale =
    let v : Versions = record {
      active_version = m.embedding.active_version;
      shadow_version = m.embedding.shadow_version;
    } in
    let (grows, few_new, covers) = run-Covers p v stale_seconds 500 m.db few in
    covers k r there (ground (arith, null, active, stale, ==_iff r.status "active"))

-- After a change of the active version an active asset has no vector id and the new version, with
-- its content, and the queue is as before. The compensation that follows leaves a waiting task of
-- the new version for it, unless there are more than 500 assets or it was indexed too recently.
pub switch_active-Compensated :
    (p : Platform) (new_active : String) (stale_seconds : ℕ) (m : Migration) (k : String)
    (row : AssetIndex)
    → (new_active == m.embedding.active_version) ≡ false
    → Dict.get k m.db.assets ≡ some row
    → row.status ≡ "active"
    → let after = switch_active p new_active m in
      ((r : AssetIndex) × (Dict.get k after.db.assets ≡ some r)
        × (r.embedding_id ≡ none)
        × (r.active_embedding_version ≡ new_active)
        × (r.content_snapshot ≡ row.content_snapshot))
      × (after.embedding.active_version ≡ new_active)
      × (after.index.active_version ≡ new_active)
      × (after.db.tasks ≡ m.db.tasks)
      × ((500 < length m.db.assets)
          ⊎ (ltb (row.indexed_at + stale_seconds) (p.clock after.db.time_at) ≡ false)
          ⊎ (has_waiting k new_active (run_reconcile_embedding p stale_seconds after).0.tasks
              ≡ true))
unfolding switch_active
switch_active-Compensated p new_active stale_seconds m k row differs there active =
    let now = p.clock m.db.time_at in
    let reset = get-reset_versions new_active k now row m.db.assets there active in
    let after : Migration = record m {
      embedding = switch_active_version new_active m.embedding;
      index = record {
        active_version = new_active;
        shadow_version = (switch_active_version new_active m.embedding).shadow_version;
      };
      db = record m.db {
        assets = reset_versions new_active now m.db.assets;
        time_at = suc m.db.time_at;
      };
    } in
    rw differs (
      (_, reset, refl, refl, refl),
      refl,
      refl,
      refl,
      elim (Bool-cases (leb (length m.db.assets) 500)) [
        | inr many ↦ inl (ground arith)
        | inl few ↦
            elim (Bool-cases (ltb (row.indexed_at + stale_seconds) (p.clock after.db.time_at))) [
              | inr recent ↦ inr (inl recent)
              | inl stale ↦ inr (
                  inr (
                    run_reconcile_embedding-covers p stale_seconds after k _
                      (ground (arith, length-reset_versions new_active now m.db.assets)) reset refl
                      active stale))
            ]
      ],
    )
