-- ===== src/Outbox/Effects.antt =====
-- What a task writes to the assets.
use team_harness.Prelude.{
  ℕ, suc, String, ◌≡◌, ◌⊎◌, refl, ap, ◌∙◌, false, Option, none, some, ◌==◌, ==_iff, arith,
  Bool-cases, inl, inr,
}
use team_harness.Prelude.Dict
use team_harness.Prelude.Dict.{get-put}
use team_harness.Prelude.Result.{Result, ok, raise}
use team_harness.Outbox.Tables.{
  TaskStatus, done, EmbeddingTask, AssetIndex, EmbeddingResult, Worker, Database, called,
  is_active_for, metadata_of,
}
use team_harness.Outbox.{
  complete, untrack, track, write_back, index_done, store_vector, execute_index, compensate,
  execute_delete, execute_upsert, execute_task,
}

-- the asset of `t` gets the vector's id, and the task ends with it
abbrev pub WritesBack : Database → EmbeddingTask → String → Database × Result EmbeddingTask → Type 0
WritesBack db t i (after, raise e) = ⊥
WritesBack db t i (after, ok u) =
    (i ≡ t.asset_id)
    × ((a : AssetIndex) × (point_id : String) × (Dict.get i db.assets ≡ some a)
        × ((a.status == "deleted") ≡ false)
        × (a.active_embedding_version ≡ t.model_version)
        × (u.status ≡ done)
        × (u.embedding_id ≡ some point_id)
        × ((at : ℕ) × (Dict.get i after.assets
              ≡ some (record a { embedding_id = some point_id; updated_at = at }))))

-- the asset `i` is left, or gets the id
abbrev pub Written : Database → EmbeddingTask → String → Database × Result EmbeddingTask → Type 0
Written db t i r = (Dict.get i r.0.assets ≡ Dict.get i db.assets) ⊎ WritesBack db t i r

module _ (w : Worker) where
  write_back-cases :
      (a : AssetIndex) (t : EmbeddingTask) (point_id : String) (db : Database) (i : String)
      → (Dict.get i (write_back w a t point_id db).assets ≡ Dict.get i db.assets)
        ⊎ ((i ≡ t.asset_id)
            × (a.active_embedding_version ≡ t.model_version)
            × (Dict.get i (write_back w a t point_id db).assets
                ≡ some
                    (record a { embedding_id = some point_id; updated_at = w.clock db.time_at })))
  unfolding write_back
  write_back-cases a t point_id db i =
      let b : AssetIndex = record a {
        embedding_id = some point_id;
        updated_at = w.clock db.time_at;
      } in
      elim (Bool-cases (is_active_for a t)) [
        | inl active ↦ elim (Bool-cases (t.asset_id == i)) [
          | inl same ↦ rw active (
              inr (
                ground (arith, ==_iff t.asset_id i),
                ground (arith, ==_iff a.active_embedding_version t.model_version),
                get-put t.asset_id i b db.assets ∙ rw same refl,
              ))
          | inr differs ↦ rw active (inl (get-put t.asset_id i b db.assets ∙ rw differs refl))
        ]
        | inr other_version ↦ rw other_version (inl refl)
      ]

  module _ (t : EmbeddingTask) (i : String) where
    complete-Written :
        (s : TaskStatus) (db : Database) → Written db t i (complete w s t (untrack w t (called db)))
    complete-Written s db = inl refl

    execute_delete-Written : (db : Database) → Written db t i (execute_delete w t db)
    unfolding execute_delete
    execute_delete-Written db =
        elim (w.delete db.calls t.asset_id t.model_version)
          as (λ r. Written db t i (elim r [
            | raise e ↦ (called db, raise e)
            | ok b ↦ complete w done t (untrack w t (called db))
          ])) [ raise e ↦ inl refl | ok b ↦ inl refl ]

    module _ (a : AssetIndex) (db : Database) (at : Dict.get t.asset_id db.assets ≡ some a)
        (there : (a.status == "deleted") ≡ false) where
      index_done-Written :
          (emb : EmbeddingResult) (point_id : String) (n : ℕ)
          → Written db t i (index_done w a t emb point_id (record db { calls = n }))
      unfolding index_done
      index_done-Written emb point_id n =
          elim (write_back-cases a t point_id (track w t emb (record db { calls = n })) i) [
            | inl same ↦ inl same
            | inr (is, active, written) ↦ inr (
              is,
              (
                a,
                point_id,
                ap (λ k. Dict.get k db.assets) is ∙ at,
                there,
                active,
                refl,
                refl,
                (_, written),
              ),
            )
          ]

      store_vector-Written :
          (emb : EmbeddingResult) (n : ℕ)
          → Written db t i (store_vector w a t emb (record db { calls = n }))
      unfolding store_vector
      store_vector-Written emb n =
          elim (w.upsert n
              (record {
                asset_id = t.asset_id;
                vector = emb.vector;
                dim = emb.dim;
                metadata = metadata_of a t;
              })
              t.model_version)
            as (λ r. Written db t i (elim r [
              | raise e ↦ (called (record db { calls = n }), raise e)
              | ok point_id ↦ index_done w a t emb point_id (called (record db { calls = n }))
            ])) [ raise e ↦ inl refl | ok point_id ↦ index_done-Written emb point_id (suc n) ]

      execute_index-Written : Written db t i (execute_index w a t db)
      unfolding execute_index
      execute_index-Written =
          elim (w.embed db.calls a.content_snapshot t.model_version)
            as (λ r. Written db t i (elim r [
              | raise e ↦ (called db, raise e)
              | ok emb ↦ store_vector w a t emb (called db)
            ])) [ raise e ↦ inl refl | ok emb ↦ store_vector-Written emb (suc db.calls) ]

    execute_upsert-Written :
        (o : Option AssetIndex) (db : Database)
        → Dict.get t.asset_id db.assets ≡ o
        → Written db t i (execute_upsert w o t db)
    unfolding execute_upsert compensate
    execute_upsert-Written none db at = inl refl
    execute_upsert-Written (some a) db at = elim (Bool-cases (a.status == "deleted")) [
      | inl gone ↦ rw gone (inl refl)
      | inr there ↦ rw there (execute_index-Written a db at there)
    ]

  -- A task changes no asset but its own, and that one only where the asset is not deleted and the
  -- task has its active version: the task is then done, and the asset differs by its vector's id,
  -- which is that of the task, and by its time alone.
  pub execute_task-Written :
      (t : EmbeddingTask) (i : String) (db : Database) → Written db t i (execute_task w t db)
  unfolding execute_task
  execute_task-Written t i db = elim (Bool-cases (t.task_type == "delete")) [
    | inl deletes ↦ rw deletes (execute_delete-Written t i db)
    | inr indexes ↦ rw indexes (execute_upsert-Written t i (Dict.get t.asset_id db.assets) db refl)
  ]
