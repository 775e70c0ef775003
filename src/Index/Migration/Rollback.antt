-- ===== src/Index/Migration/Rollback.antt =====
-- What server/infra_db/embedding_migration.py cleans up: the rollback of a migration, a new start of
-- the same version after it, and the removal of an old version.
use team_harness.Prelude.{
  ℕ, ◌≡◌, refl, ap, sym, String, true, false, not, none, List, [], ◌∷◌, select, length, contains,
  leb, ◌==◌, ==_iff, nonempty, arith, Bool-cases, inl, inr,
}
use team_harness.Prelude.Dict.{keys}
use team_harness.Outbox.Tables.{EmbeddingTask}
use team_harness.Index.Types.{Platform}
use team_harness.Index.Migration.Types.{Migration, VectorKey, drop_collection}
use team_harness.Index.Migration.{
  start_migration, rollback_migration, waiting_ids, is_waiting_task, migrate_batch, verify_progress,
}
use team_harness.Index.Migration.Starves.{scanned_rows, has_vector, migrate_batch-idle}

-- no task of the version waits in what is kept, and those of the other versions do as before
waiting_ids-kept :
    (v : String) (ts : List EmbeddingTask)
    → waiting_ids v (select (λ (t : EmbeddingTask). not (is_waiting_task v t)) ts) ≡ []
unfolding waiting_ids
waiting_ids-kept v [] = refl
waiting_ids-kept v (t ∷ ts) = ground (arith, waiting_ids-kept v ts)

skips :
    (v u : String) (t : EmbeddingTask) (ts : List EmbeddingTask)
    → (t.model_version == v) ≡ true
    → (t.model_version == u) ≡ false
    → waiting_ids u (select (λ (x : EmbeddingTask). not (is_waiting_task v x)) ts)
      ≡ waiting_ids u ts
    → waiting_ids u (select (λ (x : EmbeddingTask). not (is_waiting_task v x)) (t ∷ ts))
      ≡ waiting_ids u (t ∷ ts)
unfolding waiting_ids
skips v u t ts same differs rest = ground (arith, same, differs, rest)

keeps :
    (v u : String) (t : EmbeddingTask) (ts : List EmbeddingTask)
    → (t.model_version == v) ≡ false
    → waiting_ids u (select (λ (x : EmbeddingTask). not (is_waiting_task v x)) ts)
      ≡ waiting_ids u ts
    → waiting_ids u (select (λ (x : EmbeddingTask). not (is_waiting_task v x)) (t ∷ ts))
      ≡ waiting_ids u (t ∷ ts)
unfolding waiting_ids
keeps v u t ts differs rest = ground (arith, differs, rest)

waiting_ids-others :
    (v u : String) (ts : List EmbeddingTask)
    → (u == v) ≡ false
    → waiting_ids u (select (λ (t : EmbeddingTask). not (is_waiting_task v t)) ts)
      ≡ waiting_ids u ts
unfolding waiting_ids
waiting_ids-others v u [] other = refl
waiting_ids-others v u (t ∷ ts) other =
    let rest = waiting_ids-others v u ts other in
    elim (Bool-cases (t.model_version == v)) [
      | inl same ↦
          let differs : (t.model_version == u) ≡ false =
            ground (arith, ==_iff t.model_version v, ==_iff t.model_version u, ==_iff u v) in
          skips v u t ts same differs rest
      | inr differs ↦ keeps v u t ts differs rest
    ]

-- the keys of a version
abbrev pub keys_of : String → List VectorKey → List VectorKey
keys_of v ks = select (λ (k : VectorKey). k.model_version == v) ks

keys_of-drop_collection : (v : String) (ks : List VectorKey) → keys_of v (drop_collection v ks) ≡ []
keys_of-drop_collection v [] = refl
keys_of-drop_collection v (k ∷ ks) = ground (arith, keys_of-drop_collection v ks)

rollback-dual :
    (m : Migration)
    → nonempty m.embedding.shadow_version ≡ true
    → let shadow = m.embedding.shadow_version in
      rollback_migration m ≡ record m {
        embedding = record m.embedding { shadow_version = "" };
        index = record { active_version = m.embedding.active_version; shadow_version = "" };
        db = record m.db {
          tasks = select (λ (t : EmbeddingTask). not (is_waiting_task shadow t)) m.db.tasks;
        };
        store = drop_collection shadow m.store;
      }
unfolding rollback_migration
rollback-dual m dual = rw dual refl

-- A rollback leaves no waiting task and no vector of the shadow version, and nothing else changes
-- but the versions.
pub rollback_migration-Clean :
    (m : Migration)
    → nonempty m.embedding.shadow_version ≡ true
    → let shadow = m.embedding.shadow_version in
      let after = rollback_migration m in
      (waiting_ids shadow after.db.tasks ≡ [])
      × ((u : String)
          → (u == shadow) ≡ false
          → waiting_ids u after.db.tasks ≡ waiting_ids u m.db.tasks)
      × (keys_of shadow after.store ≡ [])
      × (after.embedding ≡ record m.embedding { shadow_version = "" })
      × (after.db.assets ≡ m.db.assets)
      × (after.db.vectors ≡ m.db.vectors)
rollback_migration-Clean m dual =
    let shadow = m.embedding.shadow_version in
    rw (rollback-dual m dual) (
      waiting_ids-kept shadow m.db.tasks,
      λ u other. waiting_ids-others shadow u m.db.tasks other,
      keys_of-drop_collection shadow m.store,
      refl,
      refl,
      refl,
    )

start_migration-ok :
    (v : String) (m : Migration)
    → (v == m.embedding.active_version) ≡ false
    → start_migration v m ≡ (
      record m {
        embedding = record m.embedding { shadow_version = v };
        index = record { active_version = m.embedding.active_version; shadow_version = v };
      },
      none,
    )
unfolding start_migration
start_migration-ok v m differs = rw (differs, start_migration) refl

-- A start and a rollback leave the versions as they were.
pub start-rollback :
    (v : String) (m : Migration)
    → nonempty v ≡ true
    → (v == m.embedding.active_version) ≡ false
    → m.embedding.shadow_version ≡ ""
    → m.index ≡ record { active_version = m.embedding.active_version; shadow_version = "" }
    → let (after, raised) = start_migration v m in
      let back = rollback_migration after in
      (raised ≡ none)
      × (back.embedding ≡ m.embedding)
      × (back.index ≡ m.index)
      × (back.db.assets ≡ m.db.assets)
start-rollback v m named differs single index =
    let started : Migration = record m {
      embedding = record m.embedding { shadow_version = v };
      index = record { active_version = m.embedding.active_version; shadow_version = v };
    } in
    rw (start_migration-ok v m differs) (
      rw (rollback-dual started named)
        (refl, ap (λ s. record m.embedding { shadow_version = s }) (sym single), sym index, refl))

-- Where all scanned assets have their vectors of the shadow version and those are as many as the
-- active assets, a rollback and a new start of the same version leave no vector of it in the store;
-- nevertheless the next batch enqueues nothing and the migration counts as ready to switch.
pub rollback-restart :
    (p : Platform) (n : ℕ) (m : Migration)
    → let shadow = m.embedding.shadow_version in
      nonempty shadow ≡ true
      → (shadow == m.embedding.active_version) ≡ false
      → ((k : String) → contains k (keys (scanned_rows n m)) ≡ true → has_vector k m ≡ true)
      → leb (verify_progress m).total_assets (verify_progress m).shadow_embedding_count ≡ true
      → let again = (start_migration shadow (rollback_migration m)).0 in
        (keys_of shadow again.store ≡ [])
        × ((migrate_batch p n again).1.enqueued ≡ 0)
        × ((migrate_batch p n again).0.db ≡ again.db)
        × ((verify_progress again).ready_to_switch ≡ true)
unfolding verify_progress
rollback-restart p n m dual differs had enough =
    let shadow = m.embedding.shadow_version in
    let back : Migration = record m {
      embedding = record m.embedding { shadow_version = "" };
      index = record { active_version = m.embedding.active_version; shadow_version = "" };
      db = record m.db {
        tasks = select (λ (t : EmbeddingTask). not (is_waiting_task shadow t)) m.db.tasks;
      };
      store = drop_collection shadow m.store;
    } in
    let again : Migration = record back {
      embedding = m.embedding;
      index = record { active_version = m.embedding.active_version; shadow_version = shadow };
    } in
    let none_wait = waiting_ids-kept shadow m.db.tasks in
    rw (rollback-dual m dual) (
      rw (start_migration-ok shadow back differs) (
        keys_of-drop_collection shadow m.store,
        (migrate_batch-idle p n again dual (λ k at. had k at)).1,
        (migrate_batch-idle p n again dual (λ k at. had k at)).0,
        ground (arith, dual, enough, ap (λ (is : List String). length is) none_wait),
      ))
