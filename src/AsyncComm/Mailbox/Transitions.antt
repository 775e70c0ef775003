-- ===== src/AsyncComm/Mailbox/Transitions.antt =====
-- The life of a message: statuses move along the documented flow, and a known id stays known.
use team_harness.Prelude.{
  ◌++◌, String, ◌≡◌, ◌≢◌, ◌↔◌, ◌⊎◌, inl, inr, refl, Bool, true, false, none, some, List, [], ◌∷◌,
  arith, ◌==◌, ==_iff, ==_refl, sym, ap, subst, ◌∙◌, Bool-cases, Option-cases,
}
use team_harness.Prelude.Dict.{get-put}
use team_harness.Prelude.Result.{Result, ok, raise}
use team_harness.AsyncComm.Types.{
  Status, pending_delivery, delivered, ConversationEvent, same_status,
}
use team_harness.AsyncComm.Mailbox.{
  Mailbox, set_status, append_outbox, append_inbox, allowed, is_status, change_status,
  update_status, get_status, remove_delivered, known,
}

-- the outcomes of a reconciliation
pub data Outcome : Status → Type 0 where
  confirm : Outcome Status.confirmed
  revise : Outcome Status.revised
  escalate : Outcome Status.needs_human_review

-- The flow of the module's documentation: a message is delivered at most once and ends with one
-- outcome.
pub data Flow : Status → Status → Type 0 where
  deliver : Flow pending_delivery delivered
  early : {s : Status} → Outcome s → Flow pending_delivery s
  late : {s : Status} → Outcome s → Flow delivered s

allowed→Flow : (s t : Status) → allowed s t ≡ true → Flow s t
unfolding allowed
allowed→Flow Status.pending_delivery Status.delivered h = deliver
allowed→Flow Status.pending_delivery Status.confirmed h = early confirm
allowed→Flow Status.pending_delivery Status.revised h = early revise
allowed→Flow Status.pending_delivery Status.needs_human_review h = early escalate
allowed→Flow Status.delivered Status.confirmed h = late confirm
allowed→Flow Status.delivered Status.revised h = late revise
allowed→Flow Status.delivered Status.needs_human_review h = late escalate
allowed→Flow _ _ h = absurd (cc)

Flow→allowed : {s t : Status} → Flow s t → allowed s t ≡ true
unfolding allowed
Flow→allowed deliver = refl
Flow→allowed (early confirm) = refl
Flow→allowed (early revise) = refl
Flow→allowed (early escalate) = refl
Flow→allowed (late confirm) = refl
Flow→allowed (late revise) = refl
Flow→allowed (late escalate) = refl

-- The transition table is the documented flow.
pub allowed-Flow : (s t : Status) → (allowed s t ≡ true) ↔ Flow s t
allowed-Flow s t = (allowed→Flow s t, Flow→allowed)

-- one flow step, or none
abbrev pub Progress : Status → Status → Type 0
Progress s t = (s ≡ t) ⊎ Flow s t

same_status-eq : (s t : Status) → same_status s t ≡ true → s ≡ t
same_status-eq (Status.other a) (Status.other b) h = ground (arith, ==_iff a b)
same_status-eq Status.pending_delivery t h = ground arith
same_status-eq Status.delivered t h = ground arith
same_status-eq Status.confirmed t h = ground arith
same_status-eq Status.revised t h = ground arith
same_status-eq Status.needs_human_review t h = ground arith
same_status-eq (Status.other a) t h = ground arith

-- What a change of status did: it is refused and nothing changed, or the message has the new
-- status and every other message and the files are as before.
pub record Changed (event_id : String) (new : Status) (mb after : Mailbox) : Type 0 where
  pub now : get_status after event_id ≡ some new
  pub others : (j : String) → j ≢ event_id → get_status after j ≡ get_status mb j
  pub inbox : after.inbox ≡ mb.inbox
  pub outbox : after.outbox ≡ mb.outbox

abbrev pub Verdict : String → Status → Mailbox → Mailbox → Result Bool → Type 0
Verdict event_id new mb after (raise e) =
    (after ≡ mb)
    × ((is_status new ≡ false)
        ⊎ ((s : Status) × (get_status mb event_id ≡ some s) × (s ≢ new) × (¬ Flow s new)))
Verdict event_id new mb after (ok false) =
    (after ≡ mb) × (is_status new ≡ true) × (get_status mb event_id ≡ none)
Verdict event_id new mb after (ok true) =
    Changed event_id new mb after
    × (is_status new ≡ true)
    × ((s : Status) × (get_status mb event_id ≡ some s) × Progress s new)

same_status_refl : (s : Status) → same_status s s ≡ true
same_status_refl (Status.other a) = ==_refl a
same_status_refl Status.pending_delivery = refl
same_status_refl Status.delivered = refl
same_status_refl Status.confirmed = refl
same_status_refl Status.revised = refl
same_status_refl Status.needs_human_review = refl

same_status-ne : (new s : Status) → same_status new s ≡ false → s ≢ new
same_status-ne new s differs e =
    cc (subst (λ x. same_status new x ≡ false) e differs, same_status_refl new)

unchanged-Changed :
    (event_id : String) (new : Status) (mb : Mailbox)
    → get_status mb event_id ≡ some new
    → Changed event_id new mb mb
unchanged-Changed event_id new mb at = record {
  now = at;
  others = λ j ne. refl;
  inbox = refl;
  outbox = refl;
}

set_status-Changed :
    (event_id : String) (new : Status) (mb : Mailbox)
    → Changed event_id new mb (set_status event_id new mb)
unfolding set_status
set_status-Changed event_id new mb = record {
  now = ground (arith, get-put event_id event_id new mb.state, ==_iff event_id event_id);
  others = λ j ne. ground (arith, get-put event_id j new mb.state, ==_iff event_id j);
  inbox = refl;
  outbox = refl;
}

change_status-Verdict :
    (event_id : String) (s new : Status) (mb : Mailbox)
    → get_status mb event_id ≡ some s
    → is_status new ≡ true
    → Verdict event_id new mb
        (change_status event_id s new mb).0
        (change_status event_id s new mb).1
unfolding change_status
change_status-Verdict event_id s new mb at real = elim (Bool-cases (same_status new s)) [
  | inl same ↦
      let e = same_status-eq new s same in
      rw same (unchanged-Changed event_id new mb (at ∙ ap some (sym e)), real, (s, at, inl (sym e)))
  | inr differs ↦ elim (Bool-cases (allowed s new)) [
    | inl may ↦
        rw (differs, may)
          (set_status-Changed event_id new mb, real, (s, at, inr (allowed→Flow s new may)))
    | inr may_not ↦
        rw (differs, may_not)
          (refl, inr (s, at, same_status-ne new s differs, λ f. cc (Flow→allowed f)))
  ]
]

-- `update_status` on every branch: it raises exactly on an unknown status or a transition outside
-- the flow and then changes nothing, returns `False` on an unknown message and changes nothing, and
-- otherwise the message has the new status, by an allowed step or by no step, and every other
-- message and both files are as before.
pub update_status-Verdict :
    (event_id : String) (new : Status) (mb : Mailbox)
    → Verdict event_id new mb (update_status event_id new mb).0 (update_status event_id new mb).1
unfolding update_status
update_status-Verdict event_id new mb = elim (Bool-cases (is_status new)) [
  | inr unknown ↦ rw unknown (refl, inl unknown)
  | inl real ↦ elim (Option-cases (get_status mb event_id)) [
    | inl absent ↦ rw (real, absent) (refl, real, absent)
    | inr (s, at) ↦ rw (real, at) (change_status-Verdict event_id s new mb at real)
  ]
]

-- what the callers do with a mailbox
pub data Op : Type 0 where
  to_outbox to_inbox : ConversationEvent → Op
  update : String → Status → Op
  clean : List String → Op

unfoldable pub apply : Op → Mailbox → Mailbox
unfolding append_outbox append_inbox update_status remove_delivered
apply (to_outbox e) mb = (append_outbox e mb).0
apply (to_inbox e) mb = (append_inbox e mb).0
apply (update i s) mb = (update_status i s mb).0
apply (clean ids) mb = (remove_delivered ids mb).0

unfoldable pub run : List Op → Mailbox → Mailbox
run [] mb = mb
run (op ∷ ops) mb = run ops (apply op mb)

Progress-trans : {s t u : Status} → Progress s t → Progress t u → Progress s u
Progress-trans {s} {t} {u} (inl e) q = subst (λ x. Progress x u) (sym e) q
Progress-trans {s} {t} {u} (inr f) (inl e) = inr (subst (Flow s) e f)
Progress-trans (inr deliver) (inr (late o)) = inr (early o)
Progress-trans (inr (early confirm)) (inr f) = elim f [ ]
Progress-trans (inr (early revise)) (inr f) = elim f [ ]
Progress-trans (inr (early escalate)) (inr f) = elim f [ ]
Progress-trans (inr (late confirm)) (inr f) = elim f [ ]
Progress-trans (inr (late revise)) (inr f) = elim f [ ]
Progress-trans (inr (late escalate)) (inr f) = elim f [ ]

abbrev Advanced : String → Status → Mailbox → Type 0
Advanced i s mb = (t : Status) × (get_status mb i ≡ some t) × Progress s t

append-Advanced :
    (j i : String) (s new : Status) (mb : Mailbox)
    → known j mb ≡ false
    → get_status mb i ≡ some s
    → get_status (set_status j new mb) i ≡ some s
unfolding set_status
append-Advanced j i s new mb fresh at = ground (arith, get-put j i new mb.state, ==_iff j i)

Verdict-Advanced :
    (j i : String) (s new : Status) (mb after : Mailbox) (r : Result Bool)
    → Verdict j new mb after r
    → get_status mb i ≡ some s
    → Advanced i s after
Verdict-Advanced j i s new mb after (raise e) v at =
    subst (Advanced i s) (sym v.0) (s, at, inl refl)
Verdict-Advanced j i s new mb after (ok false) v at =
    subst (Advanced i s) (sym v.0) (s, at, inl refl)
Verdict-Advanced j i s new mb after (ok true) (c, real, (u, was, p)) at =
    elim (Bool-cases (i == j)) [
      | inl e ↦
          let i-eq : i ≡ j = (==_iff i j).0 e in
          (new, ap (get_status after) i-eq ∙ c.now, subst (λ x. Progress x new) (cc) p)
      | inr ne ↦ (s, c.others i (λ e. cc (ap (λ x. i == x) e, ==_refl i)) ∙ at, inl refl)
    ]

apply-Advanced :
    (op : Op) (i : String) (s : Status) (mb : Mailbox)
    → get_status mb i ≡ some s
    → Advanced i s (apply op mb)
unfolding apply
apply-Advanced (to_outbox e) i s mb at = elim (Bool-cases (known e.event_id mb)) [
  | inl old ↦ rw (old, apply) (s, at, inl refl)
  | inr fresh ↦
      rw (fresh, apply) (s, append-Advanced e.event_id i s pending_delivery _ fresh at, inl refl)
]
apply-Advanced (to_inbox e) i s mb at = elim (Bool-cases (known e.event_id mb)) [
  | inl old ↦ rw (old, apply) (s, at, inl refl)
  | inr fresh ↦ rw (fresh, apply) (s, append-Advanced e.event_id i s delivered _ fresh at, inl refl)
]
apply-Advanced (update j new) i s mb at =
    Verdict-Advanced j i s new mb _ _ (update_status-Verdict j new mb) at
apply-Advanced (clean ids) i s mb at = (s, at, inl refl)

pub run-append : (ops more : List Op) (mb : Mailbox) → run (ops ++ more) mb ≡ run more (run ops mb)
unfolding run
run-append [] more mb = refl
run-append (op ∷ ops) more mb = run-append ops more (apply op mb)

-- Whatever is done with a mailbox, a known message stays known, and its status is the old one or
-- one flow step further: the outcome of a reconciliation is final.
pub run-Progress :
    (ops : List Op) (i : String) (s : Status) (mb : Mailbox)
    → get_status mb i ≡ some s
    → (t : Status) × (get_status (run ops mb) i ≡ some t) × Progress s t
unfolding run
run-Progress [] i s mb at = (s, at, inl refl)
run-Progress (op ∷ ops) i s mb at =
    let (t, now, p) = apply-Advanced op i s mb at in
    let (u, later, q) = run-Progress ops i t (apply op mb) now in (u, later, Progress-trans p q)
