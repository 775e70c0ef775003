-- ===== src/Index/History.antt =====
-- Any sequence of writes and deletions of server/infra_db/asset_index.py, with the bindings of
-- server/infra_db/models.py.
use team_harness.Prelude.{
  ◌≡◌, ap, sym, ◌∙◌, String, Bool, List, [], ◌∷◌, ◌++◌, append_assoc, append-nil, Option-cases, inl,
  inr,
}
use team_harness.Prelude.Dict
use team_harness.Outbox.Tables.{EmbeddingTask, Database}
use team_harness.Index.Types.{Platform, Versions, Asset}
use team_harness.Index.{upsert, delete}
use team_harness.Index.Queue.{IsQueue}
use team_harness.Index.Writes.{upsert-Indexed, upsert-IsQueue}
use team_harness.Index.Bindings.{IsBound, OnlyDeletes, delete-Gone, upsert-IsBound}

-- what is done with the index
pub data Op : Type 0 where
  write : Asset → String → String → Bool → Op
  remove : String → Bool → Bool → Op

module _ (p : Platform) (v : Versions) where
  abbrev pub apply : Op → Database → Database
  apply (write a git_commit content_snapshot b) db =
      (upsert p v a git_commit content_snapshot b db).0
  apply (remove i soft_delete b) db = (delete p v i soft_delete b db).0

  unfoldable pub run : List Op → Database → Database
  run [] db = db
  run (op ∷ ops) db = run ops (apply op db)

  -- the queue has only grown
  abbrev pub Grown : Database → Database → Type 0
  Grown before after = (us : List EmbeddingTask) × (after.tasks ≡ before.tasks ++ us)

  abbrev pub IsKept : Database → Database → Type 0
  IsKept before after = IsBound after × IsQueue after × Grown before after

  remove-IsKept :
      (i : String) (soft_delete b : Bool) (db : Database)
      → OnlyDeletes p
      → IsBound db
      → IsQueue db
      → IsKept db (delete p v i soft_delete b db).0
  unfolding delete
  remove-IsKept i soft_delete b db only bound queue = elim (Option-cases (Dict.get i db.assets)) [
    | inl missing ↦ rw (missing, delete) (bound, queue, ([], sym (append-nil db.tasks)))
    | inr (row, at) ↦
        let (found, gone, still, keyed, (us, tasks, waits)) =
          delete-Gone p v i soft_delete b row db only at bound queue in
        (still, keyed, (us, tasks))
  ]

  apply-IsKept :
      (op : Op) (db : Database) → OnlyDeletes p → IsBound db → IsQueue db → IsKept db (apply op db)
  apply-IsKept (write a git_commit content_snapshot b) db only bound queue =
      let (row, others, vectors, bindings, (us, tasks, waits)) =
        upsert-Indexed p v a git_commit content_snapshot b db in
      (
        upsert-IsBound p v a git_commit content_snapshot b db bound,
        upsert-IsQueue p v a git_commit content_snapshot b db queue,
        (us, tasks),
      )
  apply-IsKept (remove i soft_delete b) db only bound queue =
      remove-IsKept i soft_delete b db only bound queue

  -- Where the database only deletes bindings with a row, and no enabled binding is to an asset that
  -- is marked as deleted, none is after any sequence of `upsert` and `delete`, soft or hard, of known
  -- and unknown assets. The ids of the queue stay a key with a new next id, and no task is lost from
  -- it.
  pub run-IsBound :
      (ops : List Op) (db : Database)
      → OnlyDeletes p
      → IsBound db
      → IsQueue db
      → IsBound (run ops db) × IsQueue (run ops db) × Grown db (run ops db)
  unfolding run
  run-IsBound [] db only bound queue = (bound, queue, ([], sym (append-nil db.tasks)))
  run-IsBound (op ∷ ops) db only bound queue =
      let (still, keyed, (us, first)) = apply-IsKept op db only bound queue in
      let (last, kept, (ts, rest)) = run-IsBound ops (apply op db) only still keyed in
      (last, kept, (us ++ ts, rest ∙ ap (λ xs. xs ++ ts) first ∙ append_assoc db.tasks us ts))
