-- ===== src/Index/Queue.antt =====
-- The queue as the asset index writes it: a new task has a new id, so the id stays a key, and what
-- waited still waits.
use team_harness.Prelude.{
  ℕ, ◌<◌, ◌≡◌, refl, String, Bool, true, false, ◌&&◌, ◌||◌, some, append_assoc, List, [], ◌∷◌, ◌++◌,
  All, All-map, ◌==◌, ==_refl, nonempty, arith, if◌then◌else◌, Bool-cases, inl, inr,
}
use team_harness.Outbox.Tables.{EmbeddingTask, Database}
use team_harness.Outbox.Rows.{find_task, IsKeyed}
use team_harness.Index.Types.{Platform, Versions, is_waiting}
use team_harness.Index.{new_task, enqueue, enqueue_versions}

abbrev pub waits_for : String → String → EmbeddingTask → Bool
waits_for asset_id version t =
    (t.asset_id == asset_id) && (t.model_version == version) && is_waiting t.status

-- some task of the asset and the version is pending or in progress
unfoldable pub has_waiting : String → String → List EmbeddingTask → Bool
has_waiting i v [] = false
has_waiting i v (t ∷ ts) = waits_for i v t || has_waiting i v ts

pub has_waiting-append :
    (i v : String) (ts us : List EmbeddingTask)
    → has_waiting i v (ts ++ us) ≡ (has_waiting i v ts || has_waiting i v us)
unfolding has_waiting
has_waiting-append i v [] us = refl
has_waiting-append i v (t ∷ ts) us = ground (arith, has_waiting-append i v ts us)

-- every id of the queue is smaller than the next one
abbrev pub IsFresh : Database → Type 0
IsFresh db = All (λ (t : EmbeddingTask). t.id < db.next_id) db.tasks

All-snoc {κ} :
    (P : EmbeddingTask → Type κ) (ts : List EmbeddingTask) (t : EmbeddingTask)
    → All P ts
    → P t
    → All P (ts ++ t ∷ [])
All-snoc P [] t h p = (p, tt)
All-snoc P (u ∷ us) t (q, h) p = (q, All-snoc P us t h p)

find_task-append :
    (k : ℕ) (u : EmbeddingTask) (ts us : List EmbeddingTask)
    → find_task k ts ≡ some u
    → find_task k (ts ++ us) ≡ some u
unfolding find_task
find_task-append k u [] us h = absurd (cc)
find_task-append k u (t ∷ ts) us h = ground (arith, find_task-append k u ts us)

find_task-fresh :
    (t : EmbeddingTask) (ts : List EmbeddingTask)
    → All (λ (u : EmbeddingTask). u.id < t.id) ts
    → find_task t.id (ts ++ t ∷ []) ≡ some t
unfolding find_task
find_task-fresh t [] h = ground arith
find_task-fresh t (u ∷ us) (p, h) = ground (arith, find_task-fresh t us h)

-- Both invariants of the queue: the id is a key, and the next id is new.
abbrev pub IsQueue : Database → Type 0
IsQueue db = IsKeyed db.tasks × IsFresh db

module _ (p : Platform) where
  pub enqueue-find_task :
      (i k v : String) (db : Database)
      → IsFresh db
      → find_task db.next_id (enqueue p i k v db).tasks ≡ some (new_task p i k v db)
  unfolding enqueue
  enqueue-find_task i k v db fresh = find_task-fresh (new_task p i k v db) db.tasks fresh

  pub enqueue-find_task_other :
      (n : ℕ) (u : EmbeddingTask) (i k v : String) (db : Database)
      → find_task n db.tasks ≡ some u
      → find_task n (enqueue p i k v db).tasks ≡ some u
  unfolding enqueue
  enqueue-find_task_other n u i k v db at =
      find_task-append n u db.tasks (new_task p i k v db ∷ []) at

  pub enqueue-IsQueue : (i k v : String) (db : Database) → IsQueue db → IsQueue (enqueue p i k v db)
  unfolding enqueue
  enqueue-IsQueue i k v db (keyed, fresh) =
      let t = new_task p i k v db in
      (
        All-snoc _ db.tasks t
            (All-map db.tasks (λ u at. find_task-append u.id u db.tasks (t ∷ []) at) keyed)
            (find_task-fresh t db.tasks fresh),
        All-snoc _ db.tasks t (All-map db.tasks (λ u (lt : u.id < db.next_id). omega arith) fresh)
            (omega arith),
      )

  pub enqueue_versions-IsQueue :
      (v : Versions) (i k : String) (db : Database)
      → IsQueue db
      → IsQueue (enqueue_versions p v i k db)
  unfolding enqueue_versions
  enqueue_versions-IsQueue v i k db h =
      let active = enqueue-IsQueue i k v.active_version db h in
      elim (Bool-cases (nonempty v.shadow_version)) [
        | inl dual ↦
            rw dual
              (enqueue-IsQueue i k v.shadow_version (enqueue p i k v.active_version db) active)
        | inr single ↦ rw single active
      ]

  pub enqueue_versions-find_task :
      (v : Versions) (i k : String) (db : Database)
      → IsFresh db
      → find_task db.next_id (enqueue_versions p v i k db).tasks
        ≡ some (new_task p i k v.active_version db)
  unfolding enqueue_versions
  enqueue_versions-find_task v i k db fresh =
      let active = enqueue-find_task i k v.active_version db fresh in
      elim (Bool-cases (nonempty v.shadow_version)) [
        | inl dual ↦ rw dual (
            enqueue-find_task_other db.next_id (new_task p i k v.active_version db) i k
              v.shadow_version (enqueue p i k v.active_version db) active)
        | inr single ↦ rw single active
      ]

  -- the tasks that a write adds
  unfoldable pub added : Versions → String → String → Database → List EmbeddingTask
  added v i k db =
      let active = new_task p i k v.active_version db in
      if nonempty v.shadow_version
      then active ∷ new_task p i k v.shadow_version (enqueue p i k v.active_version db) ∷ []
      else active ∷ []

  pub enqueue_versions-tasks :
      (v : Versions) (i k : String) (db : Database)
      → (enqueue_versions p v i k db).tasks ≡ db.tasks ++ added v i k db
  unfolding enqueue_versions added enqueue
  enqueue_versions-tasks v i k db = elim (Bool-cases (nonempty v.shadow_version)) [
    | inl dual ↦ rw dual (simp append_assoc)
    | inr single ↦ rw single refl
  ]

  -- a new task waits
  pub has_waiting-added :
      (v : Versions) (i k : String) (db : Database)
      → has_waiting i v.active_version (added v i k db) ≡ true
  unfolding added has_waiting
  has_waiting-added v i k db = ground (arith, ==_refl i, ==_refl v.active_version)

  -- the tables beside the queue stay
  pub enqueue_versions-assets :
      (v : Versions) (i k : String) (db : Database)
      → ((enqueue_versions p v i k db).assets ≡ db.assets)
        × ((enqueue_versions p v i k db).vectors ≡ db.vectors)
        × ((enqueue_versions p v i k db).bindings ≡ db.bindings)
  unfolding enqueue_versions enqueue
  enqueue_versions-assets v i k db = elim (Bool-cases (nonempty v.shadow_version)) [
    | inl dual ↦ rw dual (refl, refl, refl)
    | inr single ↦ rw single (refl, refl, refl)
  ]
