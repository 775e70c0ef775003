-- ===== src/Budget/Counts.antt =====
-- What `process_pending` handles, how it counts, what it spends, and what it does to the directory.
use Prim.Native.String.{◌++◌ as str_append}
use team_harness.Prelude.{
  ℕ, suc, ◌+◌, String, ◌≡◌, refl, ap, sym, subst, ◌∙◌, Bool, true, false, Option, none, List, [],
  ◌∷◌, ◌++◌, append_assoc, append-nil, contains, length, arith, eqb, ◌==◌, ==_iff, if◌then◌else◌,
  Bool-cases, inl, inr,
}
use team_harness.Prelude.Dict
use team_harness.Prelude.Dict.{get-remove}
use team_harness.Prelude.Result.{Result, ok, raise, Result-cases}
use team_harness.Budget.{Calendar, BudgetManager, exhausted, get_budget, consume}
use team_harness.Budget.Pending.{
  PendingCandidate, PendingStore, Processor, CallbackResult, begin, spend, succeed, fail_candidate,
  settle_candidate, process_loop, process_pending, limited_candidates, list_all, delete_candidate,
}

-- the callback takes the candidate, or says why not
abbrev takes : Result CallbackResult → Bool
takes (raise e) = false
takes (ok r) = r.success

abbrev refusal : Result CallbackResult → String
refusal (raise e) = e
refusal (ok r) = r.error

get-delete_candidate :
    (k i : String) (store : PendingStore)
    → Dict.get i (delete_candidate k store).0 ≡ (if k == i then none else Dict.get i store)
unfolding delete_candidate
get-delete_candidate k i store = elim (Bool-cases (Dict.has k store)) [
  | inl there ↦ rw there (get-remove k i store)
  | inr missing ↦ rw missing (elim (Bool-cases (k == i)) [
    | inl same ↦ rw same (ground (arith, ==_iff k i))
    | inr differs ↦ rw differs refl
  ])
]

module _ (c : Calendar) (callback : ℕ → PendingCandidate → Result CallbackResult)
    (member_id : String) where
  -- of candidates that are handed to the callback from its call `n` on, the ids of those it takes
  abbrev pub taken : ℕ → List PendingCandidate → List String
  taken n [] = []
  taken n (cand ∷ cs) =
      let rest = taken (suc n) cs in
      if takes (callback n cand) then cand.candidate_id ∷ rest else rest

  -- and a line for each of the others
  abbrev pub lines : ℕ → List PendingCandidate → List String
  lines n [] = []
  lines n (cand ∷ cs) =
      let rest = lines (suc n) cs in
      if takes (callback n cand)
      then rest
      else str_append cand.candidate_id (str_append ": " (refusal (callback n cand))) ∷ rest

  -- the budgets once an answer is paid for: only a candidate that is taken costs its tokens
  abbrev paid : Result CallbackResult → BudgetManager → BudgetManager
  paid (raise e) m = m
  paid (ok r) m =
      if r.success
      then (if eqb r.total_tokens 0 then m else (consume c member_id r.total_tokens m).0)
      else m

  -- Before each candidate that is handled the budget is not exhausted, and where candidates are left
  -- it is; `after` is what the budgets are in the end.
  abbrev pub Spends :
      ℕ → List PendingCandidate → List PendingCandidate → BudgetManager → BudgetManager → Type 0
  Spends n [] [] m after = after ≡ m
  Spends n [] (cand ∷ left) m after =
      let (looked, b) = get_budget c member_id m in (exhausted b ≡ true) × (after ≡ looked)
  Spends n (cand ∷ cs) left m after =
      let (looked, b) = get_budget c member_id m in
      (exhausted b ≡ false) × Spends (suc n) cs left (paid (callback n cand) looked) after

  -- what the loop does with candidates of which it handles `done`
  record Handles (p q : Processor) (done left : List PendingCandidate) : Type 0 where
    pub processed : q.result.processed ≡ p.result.processed + length done
    pub succeeded : q.result.succeeded ≡ p.result.succeeded + length (taken p.calls done)
    pub failed : q.result.failed ≡ p.result.failed + length (lines p.calls done)
    pub errors : q.result.errors ≡ p.result.errors ++ lines p.calls done
    pub spends : Spends p.calls done left p.manager q.manager
    pub files :
        (i : String)
        → Dict.get i q.store
          ≡ (if contains i (taken p.calls done) then none else Dict.get i p.store)

  -- a candidate that the callback takes comes before the others
  extend-taken :
      (cand : PendingCandidate) (tokens : ℕ) (p q : Processor) (done left : List PendingCandidate)
      → let (looked, b) = get_budget c member_id p.manager in
        exhausted b ≡ false
        → takes (callback p.calls cand) ≡ true
        → paid (callback p.calls cand) looked ≡ spend c callback member_id tokens looked
        → Handles
            (succeed c callback member_id tokens cand (begin c callback member_id looked p))
            q
            done
            left
        → Handles p q (cand ∷ done) left
  extend-taken cand tokens p q done left goes takes_ pays h = record {
    processed = omega (arith, h.processed);
    succeeded = rw takes_ (omega (arith, h.succeeded));
    failed = rw takes_ h.failed;
    errors = rw takes_ h.errors;
    spends = (goes, subst (λ m. Spends (suc p.calls) done left m q.manager) (sym pays) h.spends);
    files = λ i.
        rw takes_ (ground (arith, h.files i, get-delete_candidate cand.candidate_id i p.store));
  }

  -- and one that it does not take stays where it is
  extend-refused :
      (cand : PendingCandidate) (e : String) (p q : Processor) (done left : List PendingCandidate)
      → let (looked, b) = get_budget c member_id p.manager in
        exhausted b ≡ false
        → takes (callback p.calls cand) ≡ false
        → refusal (callback p.calls cand) ≡ e
        → paid (callback p.calls cand) looked ≡ looked
        → Handles (fail_candidate e cand (begin c callback member_id looked p)) q done left
        → Handles p q (cand ∷ done) left
  extend-refused cand e p q done left goes refuses says pays h = record {
    processed = omega (arith, h.processed);
    succeeded = rw refuses h.succeeded;
    failed = rw refuses (omega (arith, h.failed));
    errors = rw (refuses, says) (h.errors ∙ append_assoc p.result.errors _ _);
    spends = (goes, subst (λ m. Spends (suc p.calls) done left m q.manager) (sym pays) h.spends);
    files = λ i. rw refuses (h.files i);
  }

  extend :
      (cand : PendingCandidate) (p q : Processor) (done left : List PendingCandidate)
      → let (looked, b) = get_budget c member_id p.manager in
        exhausted b ≡ false
        → Handles
            (settle_candidate c callback member_id cand
              (callback p.calls cand)
              (begin c callback member_id looked p))
            q
            done
            left
        → Handles p q (cand ∷ done) left
  unfolding settle_candidate
  extend cand p q done left goes h =
      let (looked, b) = get_budget c member_id p.manager in
      let start = begin c callback member_id looked p in
      elim (Result-cases (callback p.calls cand)) [
        | inl (e, is) ↦
            extend-refused cand e p q done left goes (ap takes is) (ap refusal is)
              (ap (λ r. paid r looked) is)
              (subst (λ r. Handles (settle_candidate c callback member_id cand r start) q done left)
                is h)
        | inr (r, is) ↦
            let found =
              subst (λ r. Handles (settle_candidate c callback member_id cand r start) q done left)
                is h in
            elim (Bool-cases r.success) [
              | inl accepted ↦
                  extend-taken cand r.total_tokens p q done left goes (ap takes is ∙ accepted)
                    (ap (λ r. paid r looked) is ∙ rw accepted refl) (rw accepted at found)
              | inr refused ↦
                  extend-refused cand r.error p q done left goes (ap takes is ∙ refused)
                    (ap refusal is) (ap (λ r. paid r looked) is ∙ rw refused refl)
                    (rw refused at found)
            ]
      ]

  -- the candidates that are handled, and those that are left
  Splits : List PendingCandidate → Processor → Processor → Type 0
  Splits cs p q =
      (done : List PendingCandidate) × (left : List PendingCandidate) × (cs ≡ done ++ left)
      × Handles p q done left

  process_loop-Splits :
      (cs : List PendingCandidate) (p : Processor)
      → Splits cs p (process_loop c callback member_id cs p)
  unfolding process_loop Splits
  process_loop-Splits [] p = (
    [],
    [],
    refl,
    record {
      processed = omega arith;
      succeeded = omega arith;
      failed = omega arith;
      errors = sym (append-nil p.result.errors);
      spends = refl;
      files = λ i. refl;
    },
  )
  process_loop-Splits (cand ∷ cs) p =
      let (looked, b) = get_budget c member_id p.manager in
      let next =
        settle_candidate c callback member_id cand (callback p.calls cand)
          (begin c callback member_id looked p) in
      elim (Bool-cases (exhausted b)) [
        | inl stops ↦
            rw (stops, process_loop)
              (
                [],
                cand ∷ cs,
                refl,
                record {
                  processed = omega arith;
                  succeeded = omega arith;
                  failed = omega arith;
                  errors = sym (append-nil p.result.errors);
                  spends = (stops, refl);
                  files = λ i. refl;
                },
              )
        | inr goes ↦
            let (done, left, split, h) = process_loop-Splits cs next in
            rw (goes, process_loop)
              (cand ∷ done, left, ap (λ xs. cand ∷ xs) split, extend cand p _ done left goes h)
      ]

  counted :
      (n : ℕ) (cs : List PendingCandidate) → length (taken n cs) + length (lines n cs) ≡ length cs
  counted n [] = refl
  counted n (cand ∷ cs) = ground (arith, counted (suc n) cs)

  -- `process_pending` handles the first of the candidates that it has been given, up to the first
  -- one before which the budget is exhausted, and pays for those alone that the callback takes. The
  -- number handled is that of the ones taken and of the others, each of which has its line among the
  -- errors. The files of the ones that are taken are gone, and every other file, also of a candidate
  -- that failed or that is left, is as before.
  pub process_pending-Handled :
      (max_process : Option ℕ) (m : BudgetManager) (store : PendingStore)
      → let (manager, after, r) = process_pending c callback member_id max_process m store in
        (done : List PendingCandidate) × (left : List PendingCandidate) × (limited_candidates
            max_process
            (list_all store)
          ≡ done ++ left)
        × (r.processed ≡ length done)
        × (r.succeeded + r.failed ≡ r.processed)
        × (r.succeeded ≡ length (taken 0 done))
        × (r.errors ≡ lines 0 done)
        × Spends 0 done left m manager
        × ((i : String)
            → Dict.get i after ≡ (if contains i (taken 0 done) then none else Dict.get i store))
  unfolding process_pending Splits
  process_pending-Handled max_process m store =
      let start : Processor = record {
        manager = m;
        store = store;
        calls = 0;
        result = record { processed = 0; succeeded = 0; failed = 0; retained = 0; errors = [] };
      } in
      let (done, left, split, h) =
        process_loop-Splits (limited_candidates max_process (list_all store)) start in
      (
        done,
        left,
        split,
        omega (arith, h.processed),
        omega (arith, h.processed, h.succeeded, h.failed, counted 0 done),
        omega (arith, h.succeeded),
        h.errors,
        h.spends,
        h.files,
      )
