-- ===== src/AsyncComm/Sync/Reconcile.antt =====
-- What a reconciliation counts, with the resolver of server/async_comm/conflict_resolver.py.
use team_harness.Prelude.{
  ℕ, suc, ◌+◌, String, ◌≡◌, refl, ap, ◌∙◌, Bool, true, false, Option, none, some, List, [], ◌∷◌,
  ◌==◌, arith, length, select, nonempty, if◌then◌else◌, Bool-cases, Option-cases, some-injective,
  inl, inr,
}
use team_harness.Prelude.Result.{Result, ok}
use team_harness.AsyncComm.Types.{realtime_answer, simulated_answer, ConversationEvent}
use team_harness.AsyncComm.Log.{load_by_peer}
use team_harness.AsyncComm.Resolver
use team_harness.AsyncComm.Resolver.{Strings, ConflictResolver, Decision, decision_text, decide}
use team_harness.AsyncComm.Sync.Types.{World, Context}
use team_harness.AsyncComm.Sync.Events.{text_at}
use team_harness.AsyncComm.Sync.{
  Counts, no_counts, tally, first_answer, of_type, settle, reconcile_one, reconcile_all, reconcile,
}

-- the number that is counted for a decision
abbrev pub count : Decision → Counts → ℕ
count Resolver.confirmed n = n.confirmed
count Resolver.revised n = n.revised
count Resolver.needs_human_review n = n.needs_review

abbrev same_decision : Decision → Decision → Bool
same_decision Resolver.confirmed Resolver.confirmed = true
same_decision Resolver.revised Resolver.revised = true
same_decision Resolver.needs_human_review Resolver.needs_human_review = true
same_decision _ _ = false

count-tally :
    (d e : Decision) (n : Counts)
    → count d (tally (decision_text e) n)
      ≡ (if same_decision d e then suc (count d n) else count d n)
unfolding tally
count-tally Resolver.confirmed Resolver.confirmed n = refl
count-tally Resolver.confirmed Resolver.revised n = refl
count-tally Resolver.confirmed Resolver.needs_human_review n = refl
count-tally Resolver.revised Resolver.confirmed n = refl
count-tally Resolver.revised Resolver.revised n = refl
count-tally Resolver.revised Resolver.needs_human_review n = refl
count-tally Resolver.needs_human_review Resolver.confirmed n = refl
count-tally Resolver.needs_human_review Resolver.revised n = refl
count-tally Resolver.needs_human_review Resolver.needs_human_review n = refl

-- the events that reply to a question
abbrev pub replies : String → List ConversationEvent → List ConversationEvent
replies question = select (λ (e : ConversationEvent). e.in_reply_to == question)

abbrev head : List ConversationEvent → Option ConversationEvent
head [] = none
head (e ∷ es) = some e

first_answer-replies :
    (question : String) (es : List ConversationEvent)
    → head (replies question es) ≡ first_answer question es
unfolding first_answer
first_answer-replies question [] = refl
first_answer-replies question (e ∷ es) = ground (arith, first_answer-replies question es)

-- the resolver as the protocol calls it
abbrev pub decides :
    Strings → ConflictResolver → String → String → String → Result (String × String)
decides py r a b i = ok (Resolver.resolve py r a b i)

module _ (c : Context) (r : ConflictResolver) where
  -- two answers are compared by their texts
  abbrev compared : ConversationEvent → ConversationEvent → Decision
  compared sim real =
      decide r
        (r.similarity_func (text_at c "answer" sim.payload) (text_at c "answer" real.payload))

  -- whether the decision on a simulated answer, beside the real answers to its question, is `d`
  abbrev judged : Decision → ConversationEvent → List ConversationEvent → Bool
  judged d sim [] = false
  judged d sim (real ∷ more) = same_decision d (compared sim real)

  -- it names a question, which has a real answer, and the decision on the first of them is `d`
  abbrev pub is_judged : Decision → List ConversationEvent → ConversationEvent → Bool
  is_judged d answers sim =
      if nonempty sim.in_reply_to then judged d sim (replies sim.in_reply_to answers) else false

  judged-missing :
      (d : Decision) (sim : ConversationEvent) (es : List ConversationEvent)
      → head es ≡ none
      → judged d sim es ≡ false
  judged-missing d sim [] h = refl
  judged-missing d sim (e ∷ es) h = absurd (cc)

  judged-first :
      (d : Decision) (sim real : ConversationEvent) (es : List ConversationEvent)
      → head es ≡ some real
      → judged d sim es ≡ same_decision d (compared sim real)
  judged-first d sim real [] h = absurd (cc)
  judged-first d sim real (e ∷ es) h = ap (λ x. same_decision d (compared sim x)) (some-injective h)

  module _ (py : Strings) (peer_id : String) (d : Decision) where
    count-settle :
        (sim real : ConversationEvent) (s : World × Counts)
        → count d (settle c (decides py r) peer_id sim real s).1
          ≡ (if same_decision d (compared sim real) then suc (count d s.1) else count d s.1)
    unfolding settle Resolver.resolve
    count-settle sim real (w, n) = count-tally d (compared sim real) n

    count-reconcile_one :
        (answers : List ConversationEvent) (sim : ConversationEvent) (s : World × Counts)
        → count d (reconcile_one c (decides py r) peer_id answers sim s).1
          ≡ (if is_judged d answers sim then suc (count d s.1) else count d s.1)
    unfolding reconcile_one
    count-reconcile_one answers sim s = elim (Bool-cases (nonempty sim.in_reply_to)) [
      | inr orphan ↦ rw orphan refl
      | inl asked ↦
          let same = first_answer-replies sim.in_reply_to answers in
          elim (Option-cases (first_answer sim.in_reply_to answers)) [
            | inl open_ ↦
                rw
                  (
                    asked,
                    open_,
                    judged-missing d sim (replies sim.in_reply_to answers) (same ∙ open_),
                  )
                  refl
            | inr (real, found) ↦
                rw
                  (
                    asked,
                    found,
                    judged-first d sim real (replies sim.in_reply_to answers) (same ∙ found),
                  )
                  (count-settle sim real s)
          ]
    ]

    count-reconcile_all :
        (answers sims : List ConversationEvent) (s : World × Counts)
        → count d (reconcile_all c (decides py r) peer_id answers sims s).1
          ≡ length (select (is_judged d answers) sims) + count d s.1
    unfolding reconcile_all
    count-reconcile_all answers [] s = omega arith
    count-reconcile_all answers (sim ∷ sims) s = ground (
      arith,
      count-reconcile_all answers sims (reconcile_one c (decides py r) peer_id answers sim s),
      count-reconcile_one answers sim s,
    )

  -- With a `ConflictResolver`, a reconciliation counts for each of the three decisions exactly the
  -- simulated answers of the peer that name a question with a real answer, and on whose text beside
  -- that of the first such answer the resolver decides so; each is counted once.
  pub reconcile-counts :
      (py : Strings) (peer_id : String) (d : Decision) (w : World)
      → c.resolver ≡ some (decides py r)
      → let events = load_by_peer w.log peer_id none in
        count d (reconcile c peer_id w).1
        ≡ length (
            select (is_judged d (of_type realtime_answer events)) (of_type simulated_answer events))
  unfolding reconcile
  reconcile-counts py peer_id d w given =
      let events = load_by_peer w.log peer_id none in
      rw (given, reconcile)
        (count-reconcile_all py peer_id d (of_type realtime_answer events)
            (of_type simulated_answer events) (w, no_counts)
          ∙ zero_count d _)
    where
      zero_count : (d : Decision) (n : ℕ) → n + count d no_counts ≡ n
      zero_count Resolver.confirmed n = omega arith
      zero_count Resolver.revised n = omega arith
      zero_count Resolver.needs_human_review n = omega arith
