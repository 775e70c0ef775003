-- ===== src/Index/Migration/Batches.antt =====
-- The batches of server/infra_db/embedding_migration.py: which assets get a task of the new version.
use team_harness.Prelude.{
  suc, ◌+◌, ◌≤◌, ◌≡◌, refl, ap, ◌∙◌, String, Bool, true, false, not, ◌&&◌, ◌||◌, List, [], ◌∷◌,
  ◌++◌, length, contains, contains-append, ◌==◌, ==_iff, ==_refl, arith, Bool-cases, inl, inr,
}
use team_harness.Prelude.Dict.{Dict, keys}
use team_harness.Outbox.Tables.{EmbeddingTask, AssetIndex, Database}
use team_harness.Index.Types.{Platform}
use team_harness.Index.{enqueue, new_task}
use team_harness.Index.Migration.Types.{MigrateBatchResult}
use team_harness.Index.Migration.{waiting_ids, migrate_row, migrate_rows}

pub waiting_ids-append :
    (v : String) (ts us : List EmbeddingTask)
    → waiting_ids v (ts ++ us) ≡ waiting_ids v ts ++ waiting_ids v us
unfolding waiting_ids
waiting_ids-append v [] us = refl
waiting_ids-append v (t ∷ ts) us = ground (arith, waiting_ids-append v ts us)

-- all of the rows have a vector or a task
abbrev pub IsCovered : List String → List String → Dict AssetIndex → Type 0
IsCovered have waits rows =
    (k : String) → contains k (keys rows) ≡ true → (contains k have || contains k waits) ≡ true

module _ (p : Platform) (shadow : String) where
  waiting_ids-enqueue :
      (i : String) (db : Database)
      → waiting_ids shadow (enqueue p i "reindex" shadow db).tasks
        ≡ waiting_ids shadow db.tasks ++ i ∷ []
  unfolding enqueue waiting_ids
  waiting_ids-enqueue i db =
      waiting_ids-append shadow db.tasks (new_task p i "reindex" shadow db ∷ [])
      ∙ ap (λ is. waiting_ids shadow db.tasks ++ is) (rw (==_refl shadow) refl)

  -- what one row does, by whether it has a vector or a task
  pub record Moves (have waits : List String) (i : String) (a b : Database × MigrateBatchResult)
      : Type 0 where
    pub assets : b.0.assets ≡ a.0.assets
    pub vectors : b.0.vectors ≡ a.0.vectors
    pub waits_after :
        (k : String)
        → contains k (waiting_ids shadow b.0.tasks) ≡ (
            contains k (waiting_ids shadow a.0.tasks)
            || ((i == k) && not (contains i have) && not (contains i waits)))
    pub idle :
        (contains i have || contains i waits) ≡ true → (b.0 ≡ a.0) × (b.1.enqueued ≡ a.1.enqueued)
    pub counted : b.1.enqueued + b.1.already_done ≤ suc (a.1.enqueued + a.1.already_done)
    pub scanned : b.1.scanned ≡ a.1.scanned

  migrate_row-Moves :
      (have waits : List String) (i : String) (acc : Database × MigrateBatchResult)
      → Moves have waits i acc (migrate_row p shadow have waits i acc)
  unfolding migrate_row enqueue
  migrate_row-Moves have waits i (db, r) = elim (Bool-cases (contains i have)) [
    | inl had ↦ rw had (record {
      assets = refl;
      vectors = refl;
      waits_after = λ k. ground (arith, had);
      idle = λ h. (refl, refl);
      counted = omega arith;
      scanned = refl;
    })
    | inr lacks ↦ rw lacks (elim (Bool-cases (contains i waits)) [
      | inl waiting ↦ rw waiting (record {
        assets = refl;
        vectors = refl;
        waits_after = λ k. ground (arith, lacks, waiting);
        idle = λ h. (refl, refl);
        counted = omega arith;
        scanned = refl;
      })
      | inr idle ↦ rw idle (record {
        assets = refl;
        vectors = refl;
        waits_after = λ k.
            ap (contains k) (waiting_ids-enqueue i db)
            ∙ contains-append k (waiting_ids shadow db.tasks) (i ∷ [])
            ∙ ground (arith, lacks, idle);
        idle = λ h. absurd (ground (arith, lacks, idle));
        counted = omega arith;
        scanned = refl;
      })
    ])
  ]

  -- the loop
  pub record Moved (have waits : List String) (rows : Dict AssetIndex)
      (a b : Database × MigrateBatchResult) : Type 0 where
    pub assets : b.0.assets ≡ a.0.assets
    pub vectors : b.0.vectors ≡ a.0.vectors
    pub keeps :
        (k : String)
        → contains k (waiting_ids shadow a.0.tasks) ≡ true
        → contains k (waiting_ids shadow b.0.tasks) ≡ true
    pub covers :
        (k : String)
        → contains k (keys rows) ≡ true
        → (contains k have || contains k waits || contains k (waiting_ids shadow b.0.tasks)) ≡ true
    pub others :
        (k : String)
        → contains k (keys rows) ≡ false
        → contains k (waiting_ids shadow b.0.tasks) ≡ contains k (waiting_ids shadow a.0.tasks)
    pub idle : IsCovered have waits rows → (b.0 ≡ a.0) × (b.1.enqueued ≡ a.1.enqueued)
    pub counted : b.1.enqueued + b.1.already_done ≤ length rows + (a.1.enqueued + a.1.already_done)
    pub scanned : b.1.scanned ≡ a.1.scanned

  pub migrate_rows-Moved :
      (have waits : List String) (rows : Dict AssetIndex) (acc : Database × MigrateBatchResult)
      → Moved have waits rows acc (migrate_rows p shadow have waits rows acc)
  unfolding migrate_rows
  migrate_rows-Moved have waits [] acc = record {
    assets = refl;
    vectors = refl;
    keeps = λ k h. h;
    covers = λ k h. absurd (cc);
    others = λ k h. refl;
    idle = λ h. (refl, refl);
    counted = omega arith;
    scanned = refl;
  }
  migrate_rows-Moved have waits ((i, row) ∷ rows) acc =
      let one = migrate_row p shadow have waits i acc in
      let s = migrate_row-Moves have waits i acc in
      let rest = migrate_rows-Moved have waits rows one in
      record {
        assets = rest.assets ∙ s.assets;
        vectors = rest.vectors ∙ s.vectors;
        keeps = λ k h. rest.keeps k (s.waits_after k ∙ ground (arith, h));
        covers = λ k h. elim (Bool-cases (i == k)) [
          | inl same ↦
              covered have waits k (contains k (waiting_ids shadow one.0.tasks)) _
                (at_self k ((==_iff i k).0 same) ∙ refl) (rest.keeps k)
          | inr other ↦ rest.covers k (ground arith)
        ];
        others = λ k h. rest.others k (ground arith) ∙ s.waits_after k ∙ ground arith;
        idle = λ h.
            let (same, count) = s.idle (h i (ground (arith, ==_refl i))) in
            let (all, none_more) = rest.idle (λ k at. h k (ground arith)) in
            (all ∙ same, none_more ∙ count);
        counted = omega (arith, s.counted, rest.counted);
        scanned = rest.scanned ∙ s.scanned;
      }
    where
      covered :
          (have waits : List String) (k : String) (now later : Bool)
          → (contains k have || contains k waits || now) ≡ true
          → (now ≡ true → later ≡ true)
          → (contains k have || contains k waits || later) ≡ true
      covered have waits k now later h f = ground (arith, f)

      at_self :
          (k : String)
          → i ≡ k
          → (contains k have
              || contains k waits
              || contains k (waiting_ids shadow (migrate_row p shadow have waits i acc).0.tasks))
            ≡ true
      at_self k same = ground (
        arith,
        (migrate_row-Moves have waits i acc).waits_after k,
        ap (λ s. contains s have) same,
        ap (λ s. contains s waits) same,
        ==_refl k,
        ap (λ s. s == k) same,
      )
