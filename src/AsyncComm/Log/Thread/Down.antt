-- ===== src/AsyncComm/Log/Thread/Down.antt =====
-- The second loop of `load_thread` ends, relates only descendants of the root, and all of them
-- where none of them was related before.
use team_harness.Prelude.{
  ℕ, zero, suc, ◌+◌, ◌≤◌, ◌<◌, String, ◌≡◌, ◌⊎◌, inl, inr, refl, sym, ap, ◌∙◌, subst, true, false,
  not, ◌&&◌, some, List, [], ◌∷◌, arith, contains, length, ◌==◌, ==_iff, ==_refl, if◌then◌else◌,
  Bool-cases,
}
use team_harness.AsyncComm.Types.{ConversationEvent}
use team_harness.AsyncComm.Log.{scan_replies, walk_down}
use team_harness.AsyncComm.Log.Thread.{In, Descends, here, reply, event_ids, unseen, unseen-cons-lt}

-- the pair of `related` and the stack after one event of the scan
abbrev offer : String → ConversationEvent → List String × List String → List String × List String
offer current e s =
    if e.in_reply_to == current && not (contains e.event_id s.0)
    then (e.event_id ∷ s.0, e.event_id ∷ s.1)
    else s

abbrev work : List String → List String × List String → ℕ
work ks s = unseen s.0 ks + length s.1

offer-work :
    (ks : List String) (current : String) (e : ConversationEvent) (s : List String × List String)
    → contains e.event_id ks ≡ true
    → work ks (offer current e s) ≤ work ks s
offer-work ks current e s m = ground (arith, unseen-cons-lt e.event_id s.0 ks)

-- every id of `fs` is among `ks`
abbrev Within : List ConversationEvent → List String → Type 0
Within fs ks = (i : String) → contains i (event_ids fs) ≡ true → contains i ks ≡ true

scan-work :
    (ks : List String) (current : String) (fs : List ConversationEvent)
    (s : List String × List String)
    → Within fs ks
    → work ks (scan_replies current fs s) ≤ work ks s
unfolding scan_replies
scan-work ks current [] s m = omega arith
scan-work ks current (e ∷ fs) s m = omega (
  arith,
  scan-work ks current fs (offer current e s) (λ i c. m i (ground arith)),
  offer-work ks current e s (m e.event_id (ground (arith, ==_refl e.event_id))),
)

-- `i` is the id of a reply to `current`
abbrev Replies : String → List ConversationEvent → String → Type 0
Replies current fs i =
    (e : ConversationEvent) × In e fs × (e.in_reply_to ≡ current) × (e.event_id ≡ i)

offer-fresh :
    (current : String) (f : ConversationEvent) (s : List String × List String) (i : String)
    → contains i (offer current f s).0 ≡ true
    → (contains i s.0 ≡ true)
      ⊎ ((contains i (offer current f s).1 ≡ true) × (f.in_reply_to ≡ current) × (f.event_id ≡ i))
offer-fresh current f s i m = ground (arith, ==_iff f.in_reply_to current, ==_iff f.event_id i)

offer-only :
    (current : String) (f : ConversationEvent) (s : List String × List String) (i : String)
    → contains i (offer current f s).1 ≡ true
    → (contains i s.1 ≡ true) ⊎ ((f.in_reply_to ≡ current) × (f.event_id ≡ i))
offer-only current f s i m = ground (arith, ==_iff f.in_reply_to current, ==_iff f.event_id i)

offer-covers :
    (current : String) (f : ConversationEvent) (s : List String × List String)
    → f.in_reply_to ≡ current
    → contains f.event_id (offer current f s).0 ≡ true
offer-covers current f s r = ground (arith, ==_iff f.in_reply_to current, ==_refl f.event_id)

-- what a scan adds, and what it leaves
record Scanned (current : String) (fs : List ConversationEvent) (s t : List String × List String)
    : Type 0 where
  keeps : (i : String) → contains i s.0 ≡ true → contains i t.0 ≡ true
  stacks : (i : String) → contains i s.1 ≡ true → contains i t.1 ≡ true
  fresh : (i : String) → contains i t.0 ≡ true → (contains i s.0 ≡ true) ⊎ (contains i t.1 ≡ true)
  only : (i : String) → contains i t.1 ≡ true → (contains i s.1 ≡ true) ⊎ Replies current fs i
  adds : (i : String) → contains i t.0 ≡ true → (contains i s.0 ≡ true) ⊎ Replies current fs i
  covers :
      (e : ConversationEvent) → In e fs → e.in_reply_to ≡ current → contains e.event_id t.0 ≡ true

further :
    (current : String) (f : ConversationEvent) (fs : List ConversationEvent) (i : String)
    → Replies current fs i
    → Replies current (f ∷ fs) i
further current f fs i (e, m, r, n) = (e, inr m, r, n)

scan-Scanned :
    (current : String) (fs : List ConversationEvent) (s : List String × List String)
    → Scanned current fs s (scan_replies current fs s)
unfolding scan_replies
scan-Scanned current [] s = record {
  keeps = λ i m. m;
  stacks = λ i m. m;
  fresh = λ i m. inl m;
  only = λ i m. inl m;
  adds = λ i m. inl m;
  covers = λ e m r. absurd m;
}
scan-Scanned current (f ∷ fs) s =
    let s' = offer current f s in
    let ih = scan-Scanned current fs s' in
    record {
      keeps = λ i m. ih.keeps i (ground arith);
      stacks = λ i m. ih.stacks i (ground arith);
      fresh = λ i m. elim (ih.fresh i m) [
        | inr on ↦ inr on
        | inl was ↦ elim (offer-fresh current f s i was) [
          | inl old ↦ inl old
          | inr (on, r, n) ↦ inr (ih.stacks i on)
        ]
      ];
      only = λ i m. elim (ih.only i m) [
        | inr later ↦ inr (further current f fs i later)
        | inl was ↦ elim (offer-only current f s i was) [
          | inl old ↦ inl old
          | inr (r, n) ↦ inr (f, inl refl, r, n)
        ]
      ];
      adds = λ i m. elim (ih.adds i m) [
        | inr later ↦ inr (further current f fs i later)
        | inl was ↦ elim (offer-fresh current f s i was) [
          | inl old ↦ inl old
          | inr (on, r, n) ↦ inr (f, inl refl, r, n)
        ]
      ];
      covers = λ e m r. elim m [
        | inl same ↦ ih.keeps e.event_id (
            subst (λ x. contains x.event_id s'.0 ≡ true) same
              (offer-covers current f s (ap (λ (x : ConversationEvent). x.in_reply_to) same ∙ r)))
        | inr later ↦ ih.covers e later r
      ];
    }

module _ (es : List ConversationEvent) (root : String) (up : List String) where
  -- between two rounds: what is related came from above or descends, and is stacked, came from
  -- above, or has its replies related
  record Inv (s : List String × List String) : Type 0 where
    keeps : (i : String) → contains i up ≡ true → contains i s.0 ≡ true
    stacked : (i : String) → contains i s.1 ≡ true → Descends es root i
    sound : (i : String) → contains i s.0 ≡ true → (contains i up ≡ true) ⊎ Descends es root i
    done :
        (i : String)
        → contains i s.0 ≡ true
        → (contains i s.1 ≡ true)
          ⊎ (((contains i up ≡ true) × ((root == i) ≡ false))
              ⊎ ((e : ConversationEvent)
                  → In e es
                  → e.in_reply_to ≡ i
                  → contains e.event_id s.0 ≡ true))

  round :
      (current : String) (related stack : List String)
      → Inv (related, current ∷ stack)
      → Inv (scan_replies current es (related, stack))
  round current related stack inv =
      let t = scan_replies current es (related, stack) in
      let sc = scan-Scanned current es (related, stack) in
      let from_current = λ (i : String) (r : Replies current es i).
        reply r.0 (inv.stacked current (ground (arith, ==_refl current))) r.1 r.2 r.3 in
      record {
        keeps = λ i m. sc.keeps i (inv.keeps i m);
        stacked = λ i m. elim (sc.only i m) [
          | inl old ↦ inv.stacked i (ground arith)
          | inr r ↦ from_current i r
        ];
        sound = λ i m. elim (sc.adds i m) [
          | inl old ↦ inv.sound i old
          | inr r ↦ inr (from_current i r)
        ];
        done = λ i m. elim (sc.fresh i m) [
          | inr on ↦ inl on
          | inl old ↦ elim (inv.done i old) [
            | inl on ↦ elim (Bool-cases (current == i)) [
              | inl same ↦
                  let e = (==_iff current i).0 same in
                  inr (inr (λ x m' r. sc.covers x m' (r ∙ sym e)))
              | inr ne ↦ inl (sc.stacks i (ground arith))
            ]
            | inr (inl above) ↦ inr (inl above)
            | inr (inr all) ↦ inr (inr (λ x m' r. sc.keeps x.event_id (all x m' r)))
          ]
        ];
      }

  walk_down_ends :
      (fuel : ℕ) (related stack : List String)
      → work (event_ids es) (related, stack) < fuel
      → Inv (related, stack)
      → (ids : List String) × (walk_down es fuel related stack ≡ some ids) × Inv (ids, [])
  unfolding walk_down
  walk_down_ends zero related stack h inv = absurd (omega arith)
  walk_down_ends (suc fuel) related [] h inv = (related, refl, inv)
  walk_down_ends (suc fuel) related (current ∷ stack) h inv =
      let t = scan_replies current es (related, stack) in
      walk_down_ends fuel t.0 t.1
        (omega (arith, scan-work (event_ids es) current es (related, stack) (λ i m. m)))
        (round current related stack inv)

  -- where no id above the root, but the root, descends from it, every descendant is related
  Descends-related :
      (ids : List String)
      → Inv (ids, [])
      → contains root up ≡ true
      → ((i : String) → contains i up ≡ true → Descends es root i → root ≡ i)
      → (i : String) → Descends es root i
      → contains i ids ≡ true
  Descends-related ids inv r apart i (here e) =
      subst (λ k. contains k ids ≡ true) e (inv.keeps root r)
  Descends-related ids inv r apart i (reply {p} e d m to n) =
      let was = Descends-related ids inv r apart p d in
      elim (inv.done p was) [
        | inl on ↦ absurd (cc)
        | inr (inl (above, ne)) ↦ absurd (cc (apart p above d, ==_refl p, ne))
        | inr (inr all) ↦ subst (λ k. contains k ids ≡ true) n (all e m to)
      ]

  -- The loop over the replies ends within its fuel. It keeps the ids above, adds only descendants
  -- of the root, and adds them all if no id above the root is one of them.
  pub walk_down-Descends :
      (fuel : ℕ)
      → suc (unseen up (event_ids es)) < fuel
      → contains root up ≡ true
      → (ids : List String) × (walk_down es fuel up (root ∷ []) ≡ some ids)
        × ((i : String) → contains i up ≡ true → contains i ids ≡ true)
        × ((i : String) → contains i ids ≡ true → (contains i up ≡ true) ⊎ Descends es root i)
        × (((i : String) → contains i up ≡ true → Descends es root i → root ≡ i)
            → (i : String) → Descends es root i
            → contains i ids ≡ true)
  walk_down-Descends fuel h r =
      let (ids, ends, inv) = walk_down_ends fuel up (root ∷ []) (omega arith) (record {
        keeps = λ i m. m;
        stacked = λ i m. here (ground (arith, ==_iff root i));
        sound = λ i m. inl m;
        done = λ i m. elim (Bool-cases (root == i)) [
          | inl same ↦ inl (ground arith)
          | inr ne ↦ inr (inl (m, ne))
        ];
      }) in
      (ids, ends, inv.keeps, inv.sound, λ apart. Descends-related ids inv r apart)
