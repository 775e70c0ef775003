-- ===== src/Index/Migration/Starves.antt =====
-- The loop of batches that server/infra_db/embedding_migration.py documents: what the first batch
-- reaches, and what no further batch adds.
use team_harness.Prelude.{
  ℕ, zero, suc, ◌+◌, ◌≤◌, ◌≡◌, refl, ap, ap₂, sym, ◌∙◌, String, Bool, true, false, ◌||◌, length,
  contains, nonempty, arith, Bool-cases, inl, inr,
}
use team_harness.Prelude.Dict.{Dict, keys}
use team_harness.Outbox.Tables.{AssetIndex, Database}
use team_harness.Index.Types.{Platform}
use team_harness.Index.Migration.Types.{EmbeddingService, Migration, MigrateBatchResult}
use team_harness.Index.Migration.{
  have_ids, waiting_ids, candidates, migrate_rows, migrate_batch, migrate_batches,
}
use team_harness.Index.Migration.Batches.{Moved, migrate_rows-Moved}

-- the rows that a batch of the migration scans
abbrev pub scanned_rows : ℕ → Migration → Dict AssetIndex
scanned_rows n m = candidates m.embedding.active_version n m.db.assets

abbrev pub has_vector : String → Migration → Bool
has_vector k m = contains k (have_ids m.embedding.shadow_version m.db.vectors)

abbrev pub has_task : String → Migration → Bool
has_task k m = contains k (waiting_ids m.embedding.shadow_version m.db.tasks)

module _ (p : Platform) (n : ℕ) where
  abbrev start : Migration → Database × MigrateBatchResult
  start m = (m.db, record { scanned = length (scanned_rows n m); enqueued = 0; already_done = 0 })

  looped : Migration → Database × MigrateBatchResult
  looped m =
      migrate_rows p m.embedding.shadow_version (have_ids m.embedding.shadow_version m.db.vectors)
        (waiting_ids m.embedding.shadow_version m.db.tasks) (scanned_rows n m) (start m)

  looped-Moved :
      (m : Migration)
      → Moved p m.embedding.shadow_version
          (have_ids m.embedding.shadow_version m.db.vectors)
          (waiting_ids m.embedding.shadow_version m.db.tasks)
          (scanned_rows n m)
          (start m)
          (looped m)
  unfolding looped
  looped-Moved m =
      migrate_rows-Moved p m.embedding.shadow_version
        (have_ids m.embedding.shadow_version m.db.vectors)
        (waiting_ids m.embedding.shadow_version m.db.tasks) (scanned_rows n m) (start m)

  migrate_batch-dual :
      (m : Migration)
      → nonempty m.embedding.shadow_version ≡ true
      → migrate_batch p n m ≡ (record m { db = (looped m).0 }, (looped m).1)
  unfolding migrate_batch looped
  migrate_batch-dual m dual = rw dual refl

  migrate_batch-single :
      (m : Migration)
      → nonempty m.embedding.shadow_version ≡ false
      → migrate_batch p n m ≡ (m, record { scanned = 0; enqueued = 0; already_done = 0 })
  unfolding migrate_batch
  migrate_batch-single m single = rw single refl

  -- While two versions are written, each asset that a batch scans has a vector or a waiting task of
  -- the new version afterwards, and no other asset gets one. The assets and vectors are as before,
  -- and at most the scanned assets are counted as enqueued or done.
  pub migrate_batch-Covers :
      (m : Migration)
      → nonempty m.embedding.shadow_version ≡ true
      → let (after, r) = migrate_batch p n m in
        ((k : String)
          → contains k (keys (scanned_rows n m)) ≡ true
          → (has_vector k after || has_task k after) ≡ true)
        × ((k : String)
            → contains k (keys (scanned_rows n m)) ≡ false
            → has_task k after ≡ has_task k m)
        × (after.embedding ≡ m.embedding)
        × (after.db.assets ≡ m.db.assets)
        × (after.db.vectors ≡ m.db.vectors)
        × (r.enqueued + r.already_done ≤ r.scanned)
  migrate_batch-Covers m dual =
      let moved = looped-Moved m in
      rw (migrate_batch-dual m dual) (
        λ k at.
            let shadow = m.embedding.shadow_version in
            let vectors : contains k (have_ids shadow (looped m).0.vectors)
                ≡ contains k (have_ids shadow m.db.vectors) =
              ap (λ vs. contains k (have_ids shadow vs)) moved.vectors in
            ground (arith, moved.covers k at, moved.keeps k, vectors),
        moved.others,
        refl,
        moved.assets,
        moved.vectors,
        omega (arith, moved.counted, moved.scanned),
      )

  -- assets that all have their vectors
  pub migrate_batch-idle :
      (m : Migration)
      → nonempty m.embedding.shadow_version ≡ true
      → ((k : String) → contains k (keys (scanned_rows n m)) ≡ true → has_vector k m ≡ true)
      → ((migrate_batch p n m).0.db ≡ m.db) × ((migrate_batch p n m).1.enqueued ≡ 0)
  migrate_batch-idle m dual had =
      let idle = (looped-Moved m).idle (λ k at. ground (arith, had k at)) in
      rw (migrate_batch-dual m dual) idle

  -- what a batch covers is covered when the next one scans it
  again-IsCovered :
      (m : Migration)
      → nonempty m.embedding.shadow_version ≡ true
      → let m1 = (migrate_batch p n m).0 in
        ((looped (record m { db = (looped m).0 })).0 ≡ (looped m).0)
        × ((looped (record m { db = (looped m).0 })).1.enqueued ≡ 0)
  again-IsCovered m dual =
      let m1 : Migration = record m { db = (looped m).0 } in
      let eq : migrate_batch p n m ≡ (m1, (looped m).1) = migrate_batch-dual m dual in
      let covers = (migrate_batch-Covers m dual).0 in
      let same : scanned_rows n m1 ≡ scanned_rows n m =
        ap (candidates m.embedding.active_version n) (looped-Moved m).assets in
      (looped-Moved m1).idle (λ k at.
        ap (λ (x : Migration × MigrateBatchResult). has_vector k x.0 || has_task k x.0) (sym eq)
        ∙ covers k (ap (λ rows. contains k (keys rows)) (sym same) ∙ at))

  migrate_batch-again :
      (m : Migration)
      → let m1 = (migrate_batch p n m).0 in
        ((migrate_batch p n m1).0 ≡ m1) × ((migrate_batch p n m1).1.enqueued ≡ 0)
  migrate_batch-again m = elim (Bool-cases (nonempty m.embedding.shadow_version)) [
    | inl dual ↦
        let (same, nothing) = again-IsCovered m dual in
        rw (migrate_batch-dual m dual) (
          rw (migrate_batch-dual (record m { db = (looped m).0 }) dual)
            (ap (λ (d : Database). record m { db = d }) same, nothing))
    | inr single ↦
        rw (migrate_batch-single m single) (rw (migrate_batch-single m single) (refl, refl))
  ]

  migrate_batches-fixed :
      (k : ℕ) (m : Migration) → (migrate_batch p n m).0 ≡ m → migrate_batches p n k m ≡ m
  unfolding migrate_batches
  migrate_batches-fixed zero m h = refl
  migrate_batches-fixed (suc k) m h = rw h (migrate_batches-fixed k m h)

  -- Any further batches leave everything as the first one does.
  pub migrate_batches-again :
      (k : ℕ) (m : Migration)
      → let after = migrate_batches p n (suc k) m in
        (after ≡ (migrate_batch p n m).0) × ((migrate_batch p n after).1.enqueued ≡ 0)
  unfolding migrate_batches
  migrate_batches-again k m =
      let (same, nothing) = migrate_batch-again m in
      let fixed = migrate_batches-fixed k (migrate_batch p n m).0 same in
      (fixed, ap (λ x. (migrate_batch p n x).1.enqueued) fixed ∙ nothing)

  -- While two versions are written, an asset that the first batch does not scan, and that has
  -- neither a vector nor a waiting task of the new version, has neither after any further batches:
  -- no further batch enqueues anything, so that the documented loop stops.
  pub migrate_batches-starve :
      (k : ℕ) (i : String) (m : Migration)
      → nonempty m.embedding.shadow_version ≡ true
      → contains i (keys (scanned_rows n m)) ≡ false
      → has_task i m ≡ false
      → has_vector i m ≡ false
      → let after = migrate_batches p n (suc k) m in
        (has_task i after ≡ false)
        × (has_vector i after ≡ false)
        × ((migrate_batch p n after).1.enqueued ≡ 0)
  migrate_batches-starve k i m dual beyond waits lacks =
      let (same, nothing) = migrate_batches-again k m in
      let (covers, others, embedding, assets, vectors, counted) = migrate_batch-Covers m dual in
      (
        ap (has_task i) same ∙ others i beyond ∙ waits,
        ap (has_vector i) same
            ∙ ap₂ (λ (e : EmbeddingService) vs. contains i (have_ids e.shadow_version vs)) embedding
                vectors
            ∙ lacks,
        nothing,
      )
