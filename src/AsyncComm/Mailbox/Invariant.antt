-- ===== src/AsyncComm/Mailbox/Invariant.antt =====
-- What holds of a mailbox at all times: its index is on disk, every message of its files is known,
-- and no message is stored twice.
use team_harness.Prelude.{
  ℕ, suc, String, ◌≡◌, refl, ap₂, nonempty, ◌∙◌, subst, true, false, not, Option, none, some, List,
  [], ◌∷◌, ◌++◌, arith, ==_iff, contains, contains-append, Distinct, Distinct-snoc, Distinct-select,
  contains-select, Bool-cases, Option-cases, inl, inr,
}
use team_harness.Prelude.Dict
use team_harness.Prelude.Dict.{Dict, get-put, get-put_self}
use team_harness.AsyncComm.Lines.{file_ids, file_ids-append}
use team_harness.AsyncComm.Types.{
  Status, pending_delivery, delivered, active, ConversationEvent, Line, blank, malformed, json,
  get_or, same_status,
}
use team_harness.AsyncComm.Mailbox.{
  Mailbox, event_to_dict, event_from_dict, open_mailbox, set_status, known, append_outbox,
  append_inbox, load_loop, load_events, load_outbox, update_status, change_status, allowed,
  is_status, remove_delivered,
}
use team_harness.AsyncComm.Mailbox.Files.{remove_delivered-file_ids, event_from_dict-event_to_dict}
use team_harness.AsyncComm.Mailbox.Transitions.{Op, to_outbox, to_inbox, update, clean, apply, run}

pub record IsConsistent (mb : Mailbox) : Type 0 where
  pub persisted : get_or mb.saved [] ≡ mb.state
  pub outbox_known : (i : String) → contains i (file_ids mb.outbox) ≡ true → known i mb ≡ true
  pub inbox_known : (i : String) → contains i (file_ids mb.inbox) ≡ true → known i mb ≡ true
  pub outbox_distinct : Distinct (file_ids mb.outbox)
  pub inbox_distinct : Distinct (file_ids mb.inbox)
  pub one_box :
      (i : String) → contains i (file_ids mb.outbox) ≡ true → contains i (file_ids mb.inbox) ≡ false

file_ids-written :
    (ls : List Line) (e : ConversationEvent)
    → file_ids (ls ++ json (event_to_dict e) ∷ []) ≡ file_ids ls ++ e.event_id ∷ []
unfolding event_to_dict
file_ids-written ls e = file_ids-append ls (json (event_to_dict e) ∷ [])

-- A new mailbox over an empty directory is consistent.
pub open_mailbox-IsConsistent : (peer_id : String) → IsConsistent (open_mailbox peer_id [] [] none)
unfolding open_mailbox
open_mailbox-IsConsistent peer_id = record {
  persisted = refl;
  outbox_known = λ i h. absurd (cc);
  inbox_known = λ i h. absurd (cc);
  outbox_distinct = tt;
  inbox_distinct = tt;
  one_box = λ i h. refl;
}

module _ (e : ConversationEvent) (mb : Mailbox) (h : IsConsistent mb) where
  open h use {outbox_known, inbox_known, outbox_distinct, inbox_distinct, one_box}

  abbrev sent : List String
  sent = file_ids mb.outbox

  abbrev received : List String
  received = file_ids mb.inbox

  append_outbox-IsConsistent : IsConsistent (append_outbox e mb).0
  unfolding append_outbox set_status
  append_outbox-IsConsistent = elim (Bool-cases (known e.event_id mb)) [
    | inl old ↦ rw (old, append_outbox) h
    | inr fresh ↦
        rw (fresh, append_outbox)
          (record {
            persisted = refl;
            outbox_known = λ i m. ground (
              arith,
              file_ids-written mb.outbox e,
              contains-append i sent (e.event_id ∷ []),
              outbox_known i,
              get-put e.event_id i pending_delivery mb.state,
            );
            inbox_known = λ i m.
                ground (arith, inbox_known i, get-put e.event_id i pending_delivery mb.state);
            outbox_distinct = rw (file_ids-written mb.outbox e) (
                Distinct-snoc e.event_id sent (ground (arith, outbox_known e.event_id))
                  outbox_distinct);
            inbox_distinct = inbox_distinct;
            one_box = λ i m. ground (
              arith,
              file_ids-written mb.outbox e,
              contains-append i sent (e.event_id ∷ []),
              one_box i,
              inbox_known i,
              ==_iff e.event_id i,
            );
          })
  ]

  append_inbox-IsConsistent : IsConsistent (append_inbox e mb).0
  unfolding append_inbox set_status
  append_inbox-IsConsistent = elim (Bool-cases (known e.event_id mb)) [
    | inl old ↦ rw (old, append_inbox) h
    | inr fresh ↦
        rw (fresh, append_inbox)
          (record {
            persisted = refl;
            outbox_known =
                λ i m. ground (arith, outbox_known i, get-put e.event_id i delivered mb.state);
            inbox_known = λ i m. ground (
              arith,
              file_ids-written mb.inbox e,
              contains-append i received (e.event_id ∷ []),
              inbox_known i,
              get-put e.event_id i delivered mb.state,
            );
            outbox_distinct = outbox_distinct;
            inbox_distinct = rw (file_ids-written mb.inbox e) (
                Distinct-snoc e.event_id received (ground (arith, inbox_known e.event_id))
                  inbox_distinct);
            one_box = λ i m. ground (
              arith,
              file_ids-written mb.inbox e,
              contains-append i received (e.event_id ∷ []),
              one_box i,
              outbox_known i,
              ==_iff e.event_id i,
            );
          })
  ]

set_status-IsConsistent :
    (j : String) (new : Status) (mb : Mailbox)
    → IsConsistent mb
    → IsConsistent (set_status j new mb)
unfolding set_status
set_status-IsConsistent j new mb h = record {
  persisted = refl;
  outbox_known = λ i m. ground (arith, h.outbox_known i, get-put j i new mb.state);
  inbox_known = λ i m. ground (arith, h.inbox_known i, get-put j i new mb.state);
  outbox_distinct = h.outbox_distinct;
  inbox_distinct = h.inbox_distinct;
  one_box = h.one_box;
}

change_status-IsConsistent :
    (j : String) (s new : Status) (mb : Mailbox)
    → IsConsistent mb
    → IsConsistent (change_status j s new mb).0
unfolding change_status
change_status-IsConsistent j s new mb h = elim (Bool-cases (same_status new s)) [
  | inl same ↦ rw same h
  | inr differs ↦ elim (Bool-cases (allowed s new)) [
    | inl may ↦ rw (differs, may) (set_status-IsConsistent j new mb h)
    | inr may_not ↦ rw (differs, may_not) h
  ]
]

update_status-IsConsistent :
    (j : String) (new : Status) (mb : Mailbox)
    → IsConsistent mb
    → IsConsistent (update_status j new mb).0
unfolding update_status
update_status-IsConsistent j new mb h = elim (Bool-cases (is_status new)) [
  | inr unknown ↦ rw (unknown, update_status) h
  | inl real ↦ elim (Option-cases (Dict.get j mb.state)) [
    | inl absent ↦ rw (real, absent, update_status) h
    | inr (s, at) ↦ rw (real, at) (change_status-IsConsistent j s new mb h)
  ]
]

remove_delivered-IsConsistent :
    (ids : List String) (mb : Mailbox) → IsConsistent mb → IsConsistent (remove_delivered ids mb).0
unfolding remove_delivered
remove_delivered-IsConsistent ids mb h =
    let left = (remove_delivered-file_ids ids mb).0 in
    let stays =
      λ (i : String). contains-select (λ j. not (contains j ids)) i (file_ids mb.outbox) in
    record {
      persisted = h.persisted;
      outbox_known = λ i m. h.outbox_known i (stays i (subst (λ l. contains i l ≡ true) left m));
      inbox_known = h.inbox_known;
      outbox_distinct = rw left (Distinct-select _ (file_ids mb.outbox) h.outbox_distinct);
      inbox_distinct = h.inbox_distinct;
      one_box = λ i m. h.one_box i (stays i (subst (λ l. contains i l ≡ true) left m));
    }

apply-IsConsistent : (op : Op) (mb : Mailbox) → IsConsistent mb → IsConsistent (apply op mb)
unfolding apply
apply-IsConsistent (to_outbox e) mb h = append_outbox-IsConsistent e mb h
apply-IsConsistent (to_inbox e) mb h = append_inbox-IsConsistent e mb h
apply-IsConsistent (update j new) mb h = update_status-IsConsistent j new mb h
apply-IsConsistent (clean ids) mb h = remove_delivered-IsConsistent ids mb h

-- Every operation keeps the mailbox consistent: its index is on disk, every message of its files is
-- known, no message is stored twice in a file or in both files.
pub run-IsConsistent : (ops : List Op) (mb : Mailbox) → IsConsistent mb → IsConsistent (run ops mb)
unfolding run
run-IsConsistent [] mb h = h
run-IsConsistent (op ∷ ops) mb h = run-IsConsistent ops (apply op mb) (apply-IsConsistent op mb h)

load_loop-count :
    (state : Dict Status) (status : Option Status) (n m : ℕ) (ls : List Line)
    → load_loop state status none n ls ≡ load_loop state status none m ls
unfolding load_loop
load_loop-count state status n m [] = refl
load_loop-count state status n m (blank ∷ ls) = load_loop-count state status n m ls
load_loop-count state status n m (malformed ∷ ls) = load_loop-count state status n m ls
load_loop-count state status n m (json d ∷ ls) =
    ground
      (arith, load_loop-count state status n m ls, load_loop-count state status (suc n) (suc m) ls)

load_loop-append :
    (state : Dict Status) (status : Option Status) (n m : ℕ) (ls ms : List Line)
    → load_loop state status none n (ls ++ ms)
      ≡ load_loop state status none n ls ++ load_loop state status none m ms
unfolding load_loop
load_loop-append state status n m [] ms = load_loop-count state status n m ms
load_loop-append state status n m (blank ∷ ls) ms = load_loop-append state status n m ls ms
load_loop-append state status n m (malformed ∷ ls) ms = load_loop-append state status n m ls ms
load_loop-append state status n m (json d ∷ ls) ms =
    ground (
      arith,
      load_loop-append state status n m ls ms,
      load_loop-append state status (suc n) m ls ms,
    )

-- A status change of a message that no line of a file holds changes nothing that is loaded.
load_loop-put :
    (j : String) (new : Status) (state : Dict Status) (status : Option Status) (n : ℕ)
    (ls : List Line)
    → nonempty j ≡ true
    → contains j (file_ids ls) ≡ false
    → load_loop (Dict.put j new state) status none n ls ≡ load_loop state status none n ls
unfolding load_loop event_from_dict
load_loop-put j new state status n [] real h = refl
load_loop-put j new state status n (blank ∷ ls) real h =
    load_loop-put j new state status n ls real h
load_loop-put j new state status n (malformed ∷ ls) real h =
    load_loop-put j new state status n ls real h
load_loop-put j new state status n (json d ∷ ls) real h = ground (
  arith,
  load_loop-put j new state status n ls,
  load_loop-put j new state status (suc n) ls,
  get-put j (get_or d.event_id "") new state,
  ==_iff j (get_or d.event_id ""),
  ==_iff (get_or d.event_id "") j,
)

load_loop-written :
    (e : ConversationEvent) (state : Dict Status) (n : ℕ)
    → load_loop
        (Dict.put e.event_id pending_delivery state)
        (some pending_delivery)
        none
        n
        (json (event_to_dict e) ∷ [])
      ≡ record e { conversation_state = active } ∷ []
unfolding load_loop
load_loop-written e state n =
    rw (event_from_dict-event_to_dict e)
      (ground (arith, get-put_self e.event_id pending_delivery state))

-- A new message with an id that is put into the outbox of a consistent mailbox is what
-- `load_outbox` returns last among the messages to deliver, up to the conversation state; the ones
-- before it are as they were.
pub append_outbox-load_outbox :
    (e : ConversationEvent) (mb : Mailbox)
    → IsConsistent mb
    → nonempty e.event_id ≡ true
    → known e.event_id mb ≡ false
    → load_outbox (append_outbox e mb).0 (some pending_delivery) none
      ≡ load_outbox mb (some pending_delivery) none ++ record e { conversation_state = active } ∷ []
unfolding append_outbox set_status load_events
append_outbox-load_outbox e mb h real fresh =
    rw (fresh, append_outbox)
      (load_loop-append (Dict.put e.event_id pending_delivery mb.state) (some pending_delivery) 0 0
          mb.outbox (json (event_to_dict e) ∷ [])
        ∙ ap₂ ◌++◌
            (load_loop-put e.event_id pending_delivery mb.state (some pending_delivery) 0 mb.outbox
              real (ground (arith, h.outbox_known e.event_id)))
            (load_loop-written e mb.state 0))
