-- ===== src/AsyncComm/Log/Thread/Up.antt =====
-- The first loop of `load_thread` ends, and finds exactly the ids above the root.
use team_harness.Prelude.{
  ℕ, zero, suc, ◌<◌, String, ◌≡◌, ◌⊎◌, inl, inr, sym, ap, ◌∙◌, subst, true, some, List, [], ◌∷◌,
  arith, contains, nonempty, ◌==◌, ==_iff, ==_refl, Bool-cases, Option-cases,
}
use team_harness.Prelude.Dict
use team_harness.Prelude.Dict.{Dict}
use team_harness.AsyncComm.Types.{ConversationEvent}
use team_harness.AsyncComm.Log.{walk_up, by_id}
use team_harness.AsyncComm.Log.Thread.{
  Ascends, here, parent, Above, above, event_ids, unseen, unseen-cons-lt, contains_of_by_id,
}

module _ (es : List ConversationEvent) (start : ConversationEvent) (root : String) where
  -- an id that the loop may relate to the root
  abbrev Upward : String → Type 0
  Upward i = (root ≡ i) ⊎ Above (by_id es) start i

  -- if `e` replies to an event of the log, that one is related
  abbrev Covered : List String → ConversationEvent → Type 0
  Covered related e =
      nonempty e.in_reply_to ≡ true
      → Dict.has e.in_reply_to (by_id es) ≡ true
      → contains e.in_reply_to related ≡ true

  -- the related events, but the one in hand, are covered
  record Inv (current : ConversationEvent) (related : List String) : Type 0 where
    at : Ascends (by_id es) start current
    rooted : contains root related ≡ true
    sound : (i : String) → contains i related ≡ true → Upward i
    closed :
        (i : String) (p : ConversationEvent)
        → contains i related ≡ true
        → Dict.get i (by_id es) ≡ some p
        → (p ≡ current) ⊎ Covered related p

  record Walked (related : List String) : Type 0 where
    rooted : contains root related ≡ true
    sound : (i : String) → contains i related ≡ true → Upward i
    closed :
        (i : String) (p : ConversationEvent)
        → contains i related ≡ true
        → Dict.get i (by_id es) ≡ some p
        → Covered related p

  -- the loop stops where the event in hand is covered too
  stop :
      (current : ConversationEvent) (related : List String)
      → Inv current related
      → Covered related current
      → Walked related
  stop current related inv c = record {
    rooted = inv.rooted;
    sound = inv.sound;
    closed = λ i p m found. elim (inv.closed i p m found) [
      | inl e ↦ subst (Covered related) (sym e) c
      | inr covered ↦ covered
    ];
  }

  step :
      (current p : ConversationEvent) (related : List String)
      → Inv current related
      → nonempty current.in_reply_to ≡ true
      → Dict.get current.in_reply_to (by_id es) ≡ some p
      → Inv p (current.in_reply_to ∷ related)
  step current p related inv replies found =
      let i = current.in_reply_to in
      record {
        at = parent inv.at replies found;
        rooted = ground (arith, inv.rooted);
        sound = λ j m. elim (Bool-cases (i == j)) [
          | inl e ↦
              let same = (==_iff i j).0 e in
              inr (
                above current p inv.at replies same
                  (ap (λ k. Dict.get k (by_id es)) (sym same) ∙ found))
          | inr ne ↦ inv.sound j (ground arith)
        ];
        closed = λ j q m at_j. elim (Bool-cases (i == j)) [
          | inl e ↦ inl (ground (arith, ==_iff i j))
          | inr ne ↦ elim (inv.closed j q (ground arith) at_j) [
            | inl e ↦ inr (λ n k. ground (arith, ==_refl i))
            | inr covered ↦ inr (λ n k. ground (arith, covered n k))
          ]
        ];
      }

  walk_up_ends :
      (fuel : ℕ) (current : ConversationEvent) (related : List String)
      → unseen related (event_ids es) < fuel
      → Inv current related
      → (up : List String) × (walk_up (by_id es) fuel current related ≡ some up) × Walked up
  unfolding walk_up
  walk_up_ends zero current related h inv = absurd (omega arith)
  walk_up_ends (suc fuel) current related h inv = elim (Bool-cases (nonempty current.in_reply_to)) [
    | inr no_parent ↦ (related, rw no_parent, stop current related inv (λ n k. absurd (cc)))
    | inl replies ↦ elim (Option-cases (Dict.get current.in_reply_to (by_id es))) [
      | inl missing ↦
          (related, rw (replies, missing), stop current related inv (λ n k. absurd (ground arith)))
      | inr (p, found) ↦ elim (Bool-cases (contains current.in_reply_to related)) [
        | inl old ↦ (related, rw (replies, found, old), stop current related inv (λ n k. old))
        | inr new ↦
            let i = current.in_reply_to in
            let less = unseen-cons-lt i related (event_ids es) (contains_of_by_id es i found) new in
            let (up, ends, walked) =
              walk_up_ends fuel p (i ∷ related) (omega (arith, less))
                (step current p related inv replies found) in
            (up, rw (replies, found, new) ends, walked)
      ]
    ]
  ]

  -- an event above the root is related under some id
  Ascends-related :
      (up : List String)
      → Walked up
      → Dict.get root (by_id es) ≡ some start
      → {e : ConversationEvent} → Ascends (by_id es) start e
      → (i : String) × (contains i up ≡ true) × (Dict.get i (by_id es) ≡ some e)
  Ascends-related up w found here = (root, w.rooted, found)
  Ascends-related up w found (parent {e} {p} a replies at) =
      let (i, m, here_i) = Ascends-related up w found a in
      (e.in_reply_to, w.closed i e m here_i replies (ground arith), at)

  Above-related :
      (up : List String)
      → Walked up
      → Dict.get root (by_id es) ≡ some start
      → (i : String) → Above (by_id es) start i
      → contains i up ≡ true
  Above-related up w found i (above e p a replies same at) =
      let (j, m, here_j) = Ascends-related up w found a in
      subst (λ k. contains k up ≡ true) same (w.closed j e m here_j replies (ground arith))

  -- The loop over the predecessors ends within its fuel, with exactly the root and what is above.
  pub walk_up-Above :
      (fuel : ℕ)
      → unseen (root ∷ []) (event_ids es) < fuel
      → Dict.get root (by_id es) ≡ some start
      → (up : List String) × (walk_up (by_id es) fuel start (root ∷ []) ≡ some up)
        × ((i : String) → contains i up ≡ true → (root ≡ i) ⊎ Above (by_id es) start i)
        × ((i : String) → (root ≡ i) ⊎ Above (by_id es) start i → contains i up ≡ true)
  walk_up-Above fuel h found =
      let (up, ends, w) = walk_up_ends fuel start (root ∷ []) h (record {
        at = here;
        rooted = ground (arith, ==_refl root);
        sound = λ i m. inl (ground (arith, ==_iff root i));
        closed = λ i p m at. inl (ground (arith, ==_iff root i));
      }) in
      (
        up,
        ends,
        w.sound,
        λ i u. elim u [
          | inl e ↦ subst (λ k. contains k up ≡ true) e w.rooted
          | inr a ↦ Above-related up w found i a
        ],
      )
