-- ===== src/Outbox/Rows.antt =====
-- The queue as a table with a primary key: what `save` and `_claim_tasks` do to the row of an id.
use team_harness.Prelude.{
  All, All-map, ℕ, zero, suc, ◌≤◌, ◌≡◌, ◌≢◌, refl, sym, ap, ◌∙◌, Bool, true, false, ◌||◌, Option,
  none, some, List, [], ◌∷◌, map, select, take, take_all, length, length-select-le, leb, eqb, arith,
  if◌then◌else◌, Bool-cases, inl, inr,
}
use team_harness.Outbox.Tables.{
  EmbeddingTask, save, save_all, insert_by_created, order_by_created, is_claimable, Worker,
}
use team_harness.Outbox.{select_tasks}

unfoldable pub find_task : ℕ → List EmbeddingTask → Option EmbeddingTask
find_task k [] = none
find_task k (t ∷ ts) = let rest = find_task k ts in if eqb t.id k then some t else rest

-- some row has the id
unfoldable pub has_id : ℕ → List EmbeddingTask → Bool
has_id k [] = false
has_id k (t ∷ ts) = eqb t.id k || has_id k ts

-- the id is a key: a row is the one that is found by its id
abbrev pub IsKeyed : List EmbeddingTask → Type 0
IsKeyed ts = All (λ (u : EmbeddingTask). find_task u.id ts ≡ some u) ts

pub find_task-save_other :
    (k : ℕ) (t : EmbeddingTask) (ts : List EmbeddingTask)
    → t.id ≢ k
    → find_task k (save t ts) ≡ find_task k ts
unfolding find_task save
find_task-save_other k t [] ne = refl
find_task-save_other k t (u ∷ us) ne = ground (arith, find_task-save_other k t us ne)

pub find_task-save :
    (t u : EmbeddingTask) (ts : List EmbeddingTask)
    → find_task t.id ts ≡ some u
    → find_task t.id (save t ts) ≡ some t
unfolding find_task save
find_task-save t u [] h = absurd (cc)
find_task-save t u (v ∷ vs) h = ground (arith, find_task-save t u vs)

pub length-save : (t : EmbeddingTask) (ts : List EmbeddingTask) → length (save t ts) ≡ length ts
unfolding save
length-save t [] = refl
length-save t (u ∷ us) = ground (arith, length-save t us)

save-All {κ} :
    {P Q : EmbeddingTask → Type κ} (t : EmbeddingTask) (ts : List EmbeddingTask)
    → ((u : EmbeddingTask) → t.id ≢ u.id → Q u → P u)
    → P t
    → All Q ts
    → All P (save t ts)
unfolding save
save-All t [] f p h = tt
save-All t (u ∷ us) f p (q, h) = elim (Bool-cases (eqb u.id t.id)) [
  | inl same ↦ rw same (p, save-All t us f p h)
  | inr differs ↦ rw differs (f u (ground arith) q, save-All t us f p h)
]

pub save-IsKeyed :
    (t u : EmbeddingTask) (ts : List EmbeddingTask)
    → find_task t.id ts ≡ some u
    → IsKeyed ts
    → IsKeyed (save t ts)
save-IsKeyed t u ts has h =
    save-All {Q = λ u. find_task u.id ts ≡ some u} t ts
      (λ v ne q. find_task-save_other v.id t ts ne ∙ q) (find_task-save t u ts has) h

-- what holds of every row holds of every claimed one
insert_by_created-All {κ} :
    (P : EmbeddingTask → Type κ) (t : EmbeddingTask) (ts : List EmbeddingTask)
    → P t
    → All P ts
    → All P (insert_by_created t ts)
unfolding insert_by_created
insert_by_created-All P t [] p h = (p, tt)
insert_by_created-All P t (u ∷ us) p (q, h) = elim (Bool-cases (leb t.created_at u.created_at)) [
  | inl first ↦ rw first (p, (q, h))
  | inr later ↦ rw later (q, insert_by_created-All P t us p h)
]

order_by_created-All {κ} :
    (P : EmbeddingTask → Type κ) (ts : List EmbeddingTask) → All P ts → All P (order_by_created ts)
unfolding order_by_created
order_by_created-All P [] h = tt
order_by_created-All P (t ∷ ts) (p, h) =
    insert_by_created-All P t (order_by_created ts) p (order_by_created-All P ts h)

take-All {κ} :
    (P : EmbeddingTask → Type κ) (n : ℕ) (ts : List EmbeddingTask) → All P ts → All P (take n ts)
take-All P zero ts h = tt
take-All P (suc n) [] h = tt
take-All P (suc n) (t ∷ ts) (p, h) = (p, take-All P n ts h)

select-All {κ} :
    (P : EmbeddingTask → Type κ) (f : EmbeddingTask → Bool) (ts : List EmbeddingTask)
    → All P ts
    → All (λ t. P t × (f t ≡ true)) (select f ts)
select-All P f [] h = tt
select-All P f (t ∷ ts) (p, h) = elim (Bool-cases (f t)) [
  | inl holds ↦ rw holds ((p, holds), select-All P f ts h)
  | inr fails ↦ rw fails (select-All P f ts h)
]

pub select_tasks-All {κ} :
    (P : EmbeddingTask → Type κ) (w : Worker) (batch_size now : ℕ) (ts : List EmbeddingTask)
    → All P ts
    → All
        (λ t. P t × (is_claimable w.lease_timeout now t.status t.leased_at ≡ true))
        (select_tasks w batch_size now ts)
unfolding select_tasks
select_tasks-All P w batch_size now ts h =
    let Q : EmbeddingTask → Type κ =
      λ t. P t × (is_claimable w.lease_timeout now t.status t.leased_at ≡ true) in
    take-All Q batch_size _ (order_by_created-All Q _ (select-All P _ ts h))

-- a batch that is large enough takes every row that can be claimed
has_id-insert_by_created :
    (k : ℕ) (t : EmbeddingTask) (ts : List EmbeddingTask)
    → has_id k (insert_by_created t ts) ≡ (eqb t.id k || has_id k ts)
unfolding insert_by_created has_id
has_id-insert_by_created k t [] = refl
has_id-insert_by_created k t (u ∷ us) = ground (arith, has_id-insert_by_created k t us)

has_id-order_by_created :
    (k : ℕ) (ts : List EmbeddingTask) → has_id k (order_by_created ts) ≡ has_id k ts
unfolding order_by_created has_id
has_id-order_by_created k [] = refl
has_id-order_by_created k (t ∷ ts) =
    ground (arith, has_id-insert_by_created k t (order_by_created ts), has_id-order_by_created k ts)

length-insert_by_created :
    (t : EmbeddingTask) (ts : List EmbeddingTask)
    → length (insert_by_created t ts) ≡ suc (length ts)
unfolding insert_by_created
length-insert_by_created t [] = refl
length-insert_by_created t (u ∷ us) = ground (arith, length-insert_by_created t us)

length-order_by_created : (ts : List EmbeddingTask) → length (order_by_created ts) ≡ length ts
unfolding order_by_created
length-order_by_created [] = refl
length-order_by_created (t ∷ ts) =
    omega (arith, length-insert_by_created t (order_by_created ts), length-order_by_created ts)

has_id-select :
    (k : ℕ) (t : EmbeddingTask) (f : EmbeddingTask → Bool) (ts : List EmbeddingTask)
    → find_task k ts ≡ some t
    → f t ≡ true
    → has_id k (select f ts) ≡ true
unfolding find_task has_id
has_id-select k t f [] h holds = absurd (cc)
has_id-select k t f (u ∷ us) h holds = ground (arith, has_id-select k t f us)

pub has_id-select_tasks :
    (k : ℕ) (t : EmbeddingTask) (w : Worker) (batch_size now : ℕ) (ts : List EmbeddingTask)
    → length ts ≤ batch_size
    → find_task k ts ≡ some t
    → is_claimable w.lease_timeout now t.status t.leased_at ≡ true
    → has_id k (select_tasks w batch_size now ts) ≡ true
unfolding select_tasks
has_id-select_tasks k t w batch_size now ts enough at holds =
    let claimable : EmbeddingTask → Bool =
      λ (u : EmbeddingTask). is_claimable w.lease_timeout now u.status u.leased_at in
    let fits : length (order_by_created (select claimable ts)) ≤ batch_size =
      omega (arith, length-order_by_created (select claimable ts), length-select-le claimable ts) in
    ap (has_id k) (take_all batch_size (order_by_created (select claimable ts)) fits)
    ∙ has_id-order_by_created k (select claimable ts)
    ∙ has_id-select k t claimable ts at holds

-- a row with the id is there
abbrev pub HasRow : ℕ → List EmbeddingTask → Type 0
HasRow k ts = (t : EmbeddingTask) × (find_task k ts ≡ some t)

pub save-HasRow :
    (k : ℕ) (t : EmbeddingTask) (ts : List EmbeddingTask) → HasRow k ts → HasRow k (save t ts)
save-HasRow k t ts (u, at) = elim (Bool-cases (eqb t.id k)) [
  | inl same ↦
      let is : t.id ≡ k = ground arith in
      (
        t,
        ap (λ n. find_task n (save t ts)) (sym is)
            ∙ find_task-save t u ts (ap (λ n. find_task n ts) is ∙ at),
      )
  | inr differs ↦ (u, find_task-save_other k t ts (ground arith) ∙ at)
]

pub save_all-HasRow : (k : ℕ) (ts us : List EmbeddingTask) → HasRow k us → HasRow k (save_all ts us)
unfolding save_all
save_all-HasRow k [] us h = h
save_all-HasRow k (t ∷ ts) us h = save_all-HasRow k ts (save t us) (save-HasRow k t us h)

pub find_task-save_all_other :
    (k : ℕ) (ts us : List EmbeddingTask)
    → has_id k ts ≡ false
    → find_task k (save_all ts us) ≡ find_task k us
unfolding save_all has_id
find_task-save_all_other k [] us h = refl
find_task-save_all_other k (t ∷ ts) us h =
    find_task-save_all_other k ts (save t us) (ground arith)
    ∙ find_task-save_other k t us (ground arith)

pub save_all-IsKeyed :
    (ts us : List EmbeddingTask)
    → All (λ (t : EmbeddingTask). HasRow t.id us) ts
    → IsKeyed us
    → IsKeyed (save_all ts us) × (length (save_all ts us) ≡ length us)
unfolding save_all
save_all-IsKeyed [] us found h = (h, refl)
save_all-IsKeyed (t ∷ ts) us ((u, at), found) h =
    let (keyed, same) =
      save_all-IsKeyed ts (save t us) (All-map ts (λ v f. save-HasRow v.id t us f) found)
        (save-IsKeyed t u us at h) in
    (keyed, same ∙ length-save t us)

pub has_id-map :
    (k : ℕ) (f : EmbeddingTask → EmbeddingTask) (ts : List EmbeddingTask)
    → ((t : EmbeddingTask) → (f t).id ≡ t.id)
    → has_id k (map f ts) ≡ has_id k ts
unfolding has_id
has_id-map k f [] same = refl
has_id-map k f (t ∷ ts) same = rw (same t, has_id-map k f ts same) refl

pub map-All {κ μ} :
    (P : EmbeddingTask → Type κ) (Q : EmbeddingTask → Type μ) (f : EmbeddingTask → EmbeddingTask)
    (ts : List EmbeddingTask)
    → ((t : EmbeddingTask) → P t → Q (f t))
    → All P ts
    → All Q (map f ts)
map-All P Q f [] g h = tt
map-All P Q f (t ∷ ts) g (p, h) = (g t p, map-All P Q f ts g h)
