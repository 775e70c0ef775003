-- ===== src/Budget/Pending.antt =====
-- `PendingCandidateStore` and `PendingProcessor` of server/distill_personal/budget.py. The directory
-- is a dict of files; the callback is told how many calls came before.
use team_harness.Prelude.{
  ℕ, suc, String, Bool, true, false, Option, none, some, List, [], ◌∷◌, ◌++◌, length, take, map,
  eqb, if◌then◌else◌,
}
use Prim.Native.String.{◌++◌ as str_append}
use team_harness.Prelude.Dict
use team_harness.Prelude.Dict.{Dict}
use team_harness.Prelude.Result.{Result, ok, raise}
use team_harness.Prelude.Sort.{sort_by}
use team_harness.Budget.{Calendar, BudgetManager, exhausted, get_budget, consume}

pub record PendingCandidate : Type 0 where
  pub candidate_id : String
  pub intent : Dict String
  pub created_at : String
  pub reason : String
  pub source_session_ids : List String

-- the directory: `none` is a file that cannot be read
abbrev pub PendingStore : Type 0
PendingStore = Dict (Option PendingCandidate)

unfoldable pub save_candidate : PendingCandidate → PendingStore → PendingStore
save_candidate cand store = Dict.put cand.candidate_id (some cand) store

unfoldable pub load_candidate : PendingStore → String → Option PendingCandidate
load_candidate store candidate_id = elim (Dict.get candidate_id store) [ none ↦ none | some o ↦ o ]

-- (created, p.stem) of each file that can be read
abbrev pub items_of : PendingStore → List (String × String)
items_of [] = []
items_of ((stem, none) ∷ d) = items_of d
items_of ((stem, some cand) ∷ d) = (cand.created_at, stem) ∷ items_of d

-- sorted by the time, then by the name
unfoldable pub list_ids : PendingStore → List String
list_ids store =
    map (λ (i : String × String). i.1)
      (sort_by (λ (i : String × String). i.0)
        (sort_by (λ (i : String × String). i.1) (items_of store)))

abbrev pub load_each : PendingStore → List String → List PendingCandidate
load_each store [] = []
load_each store (i ∷ is) =
    let rest = load_each store is in
    elim (load_candidate store i) [ none ↦ rest | some cand ↦ cand ∷ rest ]

unfoldable pub list_all : PendingStore → List PendingCandidate
unfolding list_ids load_candidate
list_all store = load_each store (list_ids store)

unfoldable pub delete_candidate : String → PendingStore → PendingStore × Bool
delete_candidate candidate_id store =
    if Dict.has candidate_id store then (Dict.remove candidate_id store, true) else (store, false)

abbrev pub count_pending : PendingStore → ℕ
count_pending store = length (list_ids store)

-- what the callback returns, as far as it is read; a missing error is "unknown error"
pub record CallbackResult : Type 0 where
  pub success : Bool
  pub total_tokens : ℕ
  pub error : String

pub record PendingProcessResult : Type 0 where
  pub processed : ℕ
  pub succeeded : ℕ
  pub failed : ℕ
  pub retained : ℕ
  pub errors : List String

-- the manager, the store, and the calls of the callback
pub record Processor : Type 0 where
  pub manager : BudgetManager
  pub store : PendingStore
  pub calls : ℕ
  pub result : PendingProcessResult

-- a failure, with its line of `errors`
abbrev pub fail_candidate : String → PendingCandidate → Processor → Processor
fail_candidate error cand p = record p {
  result = record p.result {
    failed = suc p.result.failed;
    errors = p.result.errors ++ str_append cand.candidate_id (str_append ": " error) ∷ [];
  };
}

abbrev pub limited_candidates : Option ℕ → List PendingCandidate → List PendingCandidate
limited_candidates none cs = cs
limited_candidates (some n) cs = take n cs

module _ (c : Calendar) (callback : ℕ → PendingCandidate → Result CallbackResult)
    (member_id : String) where
  -- the tokens are spent where there are any
  abbrev pub spend : ℕ → BudgetManager → BudgetManager
  spend tokens m = if eqb tokens 0 then m else (consume c member_id tokens m).0

  -- a candidate that has been handled
  abbrev pub succeed : ℕ → PendingCandidate → Processor → Processor
  succeed tokens cand p = record p {
    manager = spend tokens p.manager;
    store = (delete_candidate cand.candidate_id p.store).0;
    result = record p.result { succeeded = suc p.result.succeeded };
  }

  unfoldable pub settle_candidate : PendingCandidate → Result CallbackResult → Processor → Processor
  unfolding delete_candidate
  settle_candidate cand (raise e) p = fail_candidate e cand p
  settle_candidate cand (ok r) p =
      if r.success then succeed r.total_tokens cand p else fail_candidate r.error cand p

  -- the call of the callback
  abbrev pub begin : BudgetManager → Processor → Processor
  begin m p = record p {
    manager = m;
    calls = suc p.calls;
    result = record p.result { processed = suc p.result.processed };
  }

  -- the loop of `process_pending`
  unfoldable pub process_loop : List PendingCandidate → Processor → Processor
  unfolding settle_candidate
  process_loop [] p = p
  process_loop (cand ∷ cs) p =
      let (m, b) = get_budget c member_id p.manager in
      let rest = process_loop cs (settle_candidate cand (callback p.calls cand) (begin m p)) in
      if exhausted b then record p { manager = m } else rest

  unfoldable pub process_pending :
      Option ℕ → BudgetManager → PendingStore → BudgetManager × PendingStore × PendingProcessResult
  unfolding list_all process_loop
  process_pending max_process m store =
      let start : Processor = record {
        manager = m;
        store = store;
        calls = 0;
        result = record { processed = 0; succeeded = 0; failed = 0; retained = 0; errors = [] };
      } in
      let p = process_loop (limited_candidates max_process (list_all store)) start in
      (p.manager, p.store, record p.result { retained = count_pending p.store })
