-- ===== src/AsyncComm/Log/Thread/Complete.antt =====
-- `load_thread` as a whole: it always returns, and what it returns is the reply chain.
use team_harness.Prelude.{
  suc, String, ◌≡◌, ◌⊎◌, inl, inr, refl, ap, ◌∙◌, true, none, some, List, [], ◌∷◌, arith, contains,
  length, ==_iff, ==_refl, Option-cases,
}
use team_harness.Prelude.Dict
use team_harness.Prelude.Dict.{Dict}
use team_harness.Prelude.Sort.{insert_by, sort_by, sort_by-IsSorted, IsSorted}
use team_harness.AsyncComm.Types.{ConversationEvent}
use team_harness.AsyncComm.Log.{
  ConversationLog, read_all, by_id, by_time, fetch_all, related_ids, load_thread,
}
use team_harness.AsyncComm.Log.Thread.{
  In, Descends, Above, event_ids, length-event_ids, unseen-le-length,
}
use team_harness.AsyncComm.Log.Thread.Up.{walk_up-Above}
use team_harness.AsyncComm.Log.Thread.Down.{walk_down-Descends}

module _ (key : ConversationEvent → String) where
  In-insert_by→ :
      (e x : ConversationEvent) (ys : List ConversationEvent)
      → In e (insert_by key x ys)
      → (x ≡ e) ⊎ In e ys
  unfolding insert_by
  In-insert_by→ e x [] m = m
  In-insert_by→ e x (y ∷ ys) m = ground (arith, In-insert_by→ e x ys)

  In-insert_by← :
      (e x : ConversationEvent) (ys : List ConversationEvent)
      → (x ≡ e) ⊎ In e ys
      → In e (insert_by key x ys)
  unfolding insert_by
  In-insert_by← e x [] m = m
  In-insert_by← e x (y ∷ ys) m = ground (arith, In-insert_by← e x ys)

  In-sort_by→ :
      (e : ConversationEvent) (xs : List ConversationEvent) → In e (sort_by key xs) → In e xs
  unfolding sort_by
  In-sort_by→ e [] m = m
  In-sort_by→ e (x ∷ xs) m = elim (In-insert_by→ e x (sort_by key xs) m) [
    | inl here ↦ inl here
    | inr later ↦ inr (In-sort_by→ e xs later)
  ]

  In-sort_by← :
      (e : ConversationEvent) (xs : List ConversationEvent) → In e xs → In e (sort_by key xs)
  unfolding sort_by
  In-sort_by← e [] m = m
  In-sort_by← e (x ∷ xs) (inl here) = In-insert_by← e x (sort_by key xs) (inl here)
  In-sort_by← e (x ∷ xs) (inr later) =
      In-insert_by← e x (sort_by key xs) (inr (In-sort_by← e xs later))

-- `e` is stored under one of the ids
abbrev Stored : Dict ConversationEvent → List String → ConversationEvent → Type 0
Stored ids is e = (i : String) × (contains i is ≡ true) × (Dict.get i ids ≡ some e)

In-cons :
    (x e : ConversationEvent) (es : List ConversationEvent) → In e (x ∷ es) → (x ≡ e) ⊎ In e es
In-cons x e es m = m

In-fetch_all→ :
    (ids : Dict ConversationEvent) (is : List String) (e : ConversationEvent)
    → In e (fetch_all ids is)
    → Stored ids is e
unfolding fetch_all
In-fetch_all→ ids [] e m = absurd m
In-fetch_all→ ids (i ∷ is) e m = elim (Option-cases (Dict.get i ids)) [
  | inl absent ↦
      let (j, c, at) = In-fetch_all→ ids is e (rw (absent, fetch_all) at m) in (j, ground arith, at)
  | inr (x, found) ↦ elim (In-cons x e (fetch_all ids is) (rw (found, fetch_all) at m)) [
    | inl same ↦ (i, ground (arith, ==_refl i), found ∙ ap some same)
    | inr later ↦ let (j, c, at) = In-fetch_all→ ids is e later in (j, ground arith, at)
  ]
]

In-fetch_all← :
    (ids : Dict ConversationEvent) (is : List String) (i : String) (e : ConversationEvent)
    → contains i is ≡ true
    → Dict.get i ids ≡ some e
    → In e (fetch_all ids is)
unfolding fetch_all
In-fetch_all← ids [] i e m at = absurd (cc)
In-fetch_all← ids (j ∷ is) i e m at = ground (arith, In-fetch_all← ids is i e, ==_iff j i)

-- what `load_thread` should relate to the root
abbrev pub Related : List ConversationEvent → ConversationEvent → String → String → Type 0
Related es start root i = (root ≡ i) ⊎ (Above (by_id es) start i ⊎ Descends es root i)

-- The related ids, with the fuel that `load_thread` gives its loops.
pub related_ids-Related :
    (es : List ConversationEvent) (start : ConversationEvent) (root : String)
    → Dict.get root (by_id es) ≡ some start
    → (ids : List String) × (related_ids es start root ≡ some ids)
      × ((i : String) → contains i ids ≡ true → Related es start root i)
      × (((i : String) → Above (by_id es) start i → Descends es root i → root ≡ i)
          → (i : String) → Related es start root i
          → contains i ids ≡ true)
unfolding related_ids
related_ids-Related es start root found =
    let fuel = suc (suc (length es)) in
    let (up, up_ends, up_sound, up_full) =
      walk_up-Above es start root fuel
        (omega (arith, unseen-le-length (root ∷ []) (event_ids es), length-event_ids es)) found in
    let (ids, ends, keeps, sound, full) =
      walk_down-Descends es root up fuel
        (omega (arith, unseen-le-length up (event_ids es), length-event_ids es))
        (up_full root (inl refl)) in
    (
      ids,
      rw up_ends ends,
      λ i m. elim (sound i m) [
        | inr d ↦ inr (inr d)
        | inl u ↦ elim (up_sound i u) [ inl e ↦ inl e | inr a ↦ inr (inl a) ]
      ],
      λ apart i r. elim r [
        | inl e ↦ keeps i (up_full i (inl e))
        | inr (inl a) ↦ keeps i (up_full i (inr a))
        | inr (inr d) ↦
            full (λ j u e. elim (up_sound j u) [ inl same ↦ same | inr a ↦ apart j a e ]) i d
      ],
    )

-- `load_thread` always returns. For an unknown root the answer is empty; otherwise it is in
-- ascending order of the timestamps, every event of it is stored under the root's id, an id above
-- the root or one that descends from it, and no such event is missing, if no id above the root also
-- descends from it.
pub load_thread-Related :
    (log : ConversationLog) (root : String)
    → let es = read_all log in
      ((Dict.get root (by_id es) ≡ none) × (load_thread log root ≡ some []))
      ⊎ ((start : ConversationEvent) × (thread : List ConversationEvent) × (Dict.get root (by_id es)
            ≡ some start)
          × (load_thread log root ≡ some thread)
          × IsSorted (λ (e : ConversationEvent). e.timestamp) thread
          × ((e : ConversationEvent)
              → In e thread
              → (i : String) × Related es start root i × (Dict.get i (by_id es) ≡ some e))
          × (((i : String) → Above (by_id es) start i → Descends es root i → root ≡ i)
              → (i : String) (e : ConversationEvent) → Related es start root i
              → Dict.get i (by_id es) ≡ some e
              → In e thread))
unfolding load_thread
load_thread-Related log root = elim (Option-cases (Dict.get root (by_id (read_all log)))) [
  | inl absent ↦ inl (absent, rw (absent, load_thread))
  | inr (start, found) ↦
      let es = read_all log in
      let time = λ (e : ConversationEvent). e.timestamp in
      let (ids, ends, sound, full) = related_ids-Related es start root found in
      inr (
        start,
        by_time (fetch_all (by_id es) ids),
        found,
        rw (found, load_thread) (rw ends),
        sort_by-IsSorted time (fetch_all (by_id es) ids),
        λ e m.
            let (i, c, at) =
              In-fetch_all→ (by_id es) ids e (In-sort_by→ time e (fetch_all (by_id es) ids) m) in
            (i, sound i c, at),
        λ apart i e r at.
            In-sort_by← time e (fetch_all (by_id es) ids)
              (In-fetch_all← (by_id es) ids i e (full apart i r) at),
      )
]
