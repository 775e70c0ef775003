-- ===== src/AsyncComm/Sync/Push.antt =====
-- What the push of the outbox does to the statuses, whatever the transport answers.
use team_harness.Prelude.{
  ℕ, suc, String, ◌≡◌, ◌⊎◌, inl, inr, refl, sym, ap, ◌∙◌, subst, Bool, true, false, not, ◌&&◌,
  Option, none, some, List, [], ◌∷◌, arith, length, select, contains, ◌==◌, ==_iff, ==_refl,
  if◌then◌else◌, Bool-cases, Option-cases,
}
use team_harness.Prelude.Result.{Result, ok, raise}
use team_harness.AsyncComm.Types.{
  Status, pending_delivery, delivered, ConversationEvent, Line, blank, malformed, json, same_status,
}
use team_harness.AsyncComm.Mailbox.{
  Mailbox, get_status, update_status, load_outbox, load_events, load_loop, wanted, event_from_dict,
}
use team_harness.AsyncComm.Mailbox.Transitions.{Flow, deliver, Verdict, update_status-Verdict}
use team_harness.AsyncComm.Sync.Types.{SyncResult, World, Context}
use team_harness.AsyncComm.Sync.Events.{build_messages}
use team_harness.AsyncComm.Sync.{is_empty, successful, mark_delivered, push_result, push_outbox}

-- every event waits or is delivered
abbrev Sendable : Mailbox → List ConversationEvent → Type 0
Sendable mb [] = Unit
Sendable mb (e ∷ es) =
    ((get_status mb e.event_id ≡ some pending_delivery)
      ⊎ (get_status mb e.event_id ≡ some delivered))
    × Sendable mb es

abbrev pub ids : List ConversationEvent → List String
ids [] = []
ids (e ∷ es) = e.event_id ∷ ids es

some_status : {s t : Status} {o : Option Status} → o ≡ some s → o ≡ some t → s ≡ t
some_status p q = cc

mark_one_of :
    (i : String) (mb after : Mailbox) (r : Result Bool)
    → Verdict i delivered mb after r
    → (get_status mb i ≡ some pending_delivery) ⊎ (get_status mb i ≡ some delivered)
    → (r ≡ ok true)
      × ((j : String) → get_status after j ≡ (if i == j then some delivered else get_status mb j))
mark_one_of i mb after (raise x) (same, inl unknown) waits = absurd (cc)
mark_one_of i mb after (raise x) (same, inr (s, at, ne, nf)) (inl p) =
    absurd (nf (subst (λ u. Flow u delivered) (some_status p at) deliver))
mark_one_of i mb after (raise x) (same, inr (s, at, ne, nf)) (inr d) =
    absurd (ne (some_status at d))
mark_one_of i mb after (ok false) (same, real, absent) (inl p) = absurd (cc)
mark_one_of i mb after (ok false) (same, real, absent) (inr d) = absurd (cc)
mark_one_of i mb after (ok true) (c, real, from) waits = (
  refl,
  λ j. elim (Bool-cases (i == j)) [
    | inl e ↦ rw e (ap (get_status after) (sym ((==_iff i j).0 e)) ∙ c.now)
    | inr ne ↦ rw ne (c.others j (λ e. cc (ap (λ x. i == x) e, ==_refl i)))
  ],
)

-- `update_status` to "delivered" of a message that waits or is delivered
mark_one :
    (i : String) (mb : Mailbox)
    → (get_status mb i ≡ some pending_delivery) ⊎ (get_status mb i ≡ some delivered)
    → ((update_status i delivered mb).1 ≡ ok true)
      × ((j : String)
          → get_status (update_status i delivered mb).0 j
            ≡ (if i == j then some delivered else get_status mb j))
mark_one i mb waits = mark_one_of i mb _ _ (update_status-Verdict i delivered mb) waits

Sendable-marked :
    (i : String) (mb after : Mailbox) (es : List ConversationEvent)
    → ((j : String) → get_status after j ≡ (if i == j then some delivered else get_status mb j))
    → Sendable mb es
    → Sendable after es
Sendable-marked i mb after [] h s = tt
Sendable-marked i mb after (e ∷ es) h s =
    (ground (arith, h e.event_id), Sendable-marked i mb after es h s.1)

mark_delivered-status :
    (es : List ConversationEvent) (mb : Mailbox)
    → Sendable mb es
    → ((mark_delivered es mb).1 ≡ length es)
      × ((j : String)
          → get_status (mark_delivered es mb).0 j
            ≡ (if contains j (ids es) then some delivered else get_status mb j))
unfolding mark_delivered
mark_delivered-status [] mb s = (refl, λ j. refl)
mark_delivered-status (e ∷ es) mb s =
    let (done, at) = mark_one e.event_id mb s.0 in
    let mb' = (update_status e.event_id delivered mb).0 in
    let (count, rest) =
      mark_delivered-status es mb' (Sendable-marked e.event_id mb mb' es at s.1) in
    (rw (done, mark_delivered) (ap suc count), λ j. ground (arith, rest j, at j))

Sendable-select :
    (p : ConversationEvent → Bool) (mb : Mailbox) (es : List ConversationEvent)
    → Sendable mb es
    → Sendable mb (select p es)
Sendable-select p mb [] s = tt
Sendable-select p mb (e ∷ es) s = ground (arith, Sendable-select p mb es)

abbrev wanted_in : Option Status → Bool
wanted_in o = elim o [ none ↦ false | some s ↦ same_status s pending_delivery ]

pending-eq : (s : Status) → same_status s pending_delivery ≡ true → s ≡ pending_delivery
pending-eq Status.pending_delivery h = refl
pending-eq Status.delivered h = absurd (cc)
pending-eq _ h = absurd (cc)

wanted-pending :
    (mb : Mailbox) (i : String)
    → wanted mb.state (some pending_delivery) i ≡ true
    → get_status mb i ≡ some pending_delivery
wanted-pending mb i h = elim (Option-cases (get_status mb i)) [
  | inl absent ↦ absurd (cc (subst (λ o. wanted_in o ≡ true) absent h))
  | inr (s, at) ↦ at ∙ ap some (pending-eq s (subst (λ o. wanted_in o ≡ true) at h))
]

load_loop-Sendable :
    (mb : Mailbox) (n : ℕ) (ls : List Line)
    → Sendable mb (load_loop mb.state (some pending_delivery) none n ls)
unfolding load_loop
load_loop-Sendable mb n [] = tt
load_loop-Sendable mb n (blank ∷ ls) = load_loop-Sendable mb n ls
load_loop-Sendable mb n (malformed ∷ ls) = load_loop-Sendable mb n ls
load_loop-Sendable mb n (json d ∷ ls) =
    let i = (event_from_dict d).event_id in
    elim (Bool-cases (wanted mb.state (some pending_delivery) i)) [
      | inl yes_ ↦ rw yes_ (inl (wanted-pending mb i yes_), load_loop-Sendable mb (suc n) ls)
      | inr no_ ↦ rw no_ (load_loop-Sendable mb n ls)
    ]

Sendable-successful :
    (r : SyncResult) (mb : Mailbox) (es : List ConversationEvent)
    → Sendable mb es
    → Sendable mb (successful r es)
unfolding successful
Sendable-successful r mb es s =
    ground (arith, Sendable-select (λ e. contains e.event_id r.delivered_message_ids) mb es)

-- the messages for a peer that wait
abbrev pub targets : String → World → List ConversationEvent
targets peer_id w =
    select (λ e. e.peer_id == peer_id) (load_outbox w.mailbox (some pending_delivery) none)

-- the transport says that it took the message: it names the message, or it names none and succeeds
abbrev pub took : SyncResult → String → Bool
took r i = elim r.delivered_message_ids [ [] ↦ r.success | j ∷ js ↦ contains i (j ∷ js) ]

select_every :
    (p : ConversationEvent → Bool) (es : List ConversationEvent)
    → ((e : ConversationEvent) → p e ≡ true)
    → select p es ≡ es
select_every p [] h = refl
select_every p (e ∷ es) h = rw (h e) (ap (λ l. e ∷ l) (select_every p es h))

select_none :
    (p : ConversationEvent → Bool) (es : List ConversationEvent)
    → ((e : ConversationEvent) → p e ≡ false)
    → select p es ≡ []
select_none p [] h = refl
select_none p (e ∷ es) h = rw (h e) (select_none p es h)

successful-took :
    (r : SyncResult) (es : List ConversationEvent)
    → successful r es ≡ select (λ e. took r e.event_id) es
unfolding successful
successful-took r es = of r.delivered_message_ids r.success
  where
    of :
        (js : List String) (success : Bool)
        → (if not (is_empty js)
            then select (λ e. contains e.event_id js) es
            else if success
            then es
            else [])
          ≡ select (λ e. elim js [ [] ↦ success | j ∷ js' ↦ contains e.event_id (j ∷ js') ]) es
    of (j ∷ js) success = refl
    of [] true = sym (select_every (λ e. true) es (λ e. refl))
    of [] false = sym (select_none (λ e. false) es (λ e. refl))

contains-took :
    (q : String → Bool) (i : String) (es : List ConversationEvent)
    → contains i (ids (select (λ e. q e.event_id) es)) ≡ (contains i (ids es) && q i)
contains-took q i [] = refl
contains-took q i (e ∷ es) = elim (Bool-cases (q e.event_id)) [
  | inl in_ ↦ rw in_ (ground (arith, contains-took q i es, ==_iff e.event_id i, in_, ap q))
  | inr out ↦ rw out (ground (arith, contains-took q i es, ==_iff e.event_id i, out))
]

-- What a push leaves for each answer of the transport.
abbrev pub Pushed : Mailbox → List ConversationEvent → Result SyncResult → World × Result ℕ → Type 0
Pushed mb events (raise x) out = (out.1 ≡ raise x) × (out.0.mailbox ≡ mb)
Pushed mb events (ok r) out =
    (out.1 ≡ ok (length (select (λ e. took r e.event_id) events)))
    × ((i : String)
        → get_status out.0.mailbox i
          ≡ (if contains i (ids events) && took r i then some delivered else get_status mb i))

push_result-Pushed :
    (w : World) (events : List ConversationEvent) (r : Result SyncResult)
    → Sendable w.mailbox events
    → Pushed w.mailbox events r (push_result w events r)
unfolding push_result
push_result-Pushed w events (raise x) s = (refl, refl)
push_result-Pushed w events (ok r) s =
    let (count, at) =
      mark_delivered-status (successful r events) w.mailbox
        (Sendable-successful r w.mailbox events s) in
    (
      ap ok (count ∙ ap length (successful-took r events)),
      λ i.
          at i
          ∙ ap (λ t. if t then some delivered else get_status w.mailbox i)
              (ap (λ es. contains i (ids es)) (successful-took r events)
                ∙ contains-took (took r) i events),
    )

log-push_result :
    (w : World) (events : List ConversationEvent) (r : Result SyncResult)
    → (push_result w events r).0.log ≡ w.log
unfolding push_result
log-push_result w events (raise x) = refl
log-push_result w events (ok r) = refl

nil_of_is_empty : (es : List ConversationEvent) → is_empty es ≡ true → es ≡ []
nil_of_is_empty [] h = refl
nil_of_is_empty (e ∷ es) h = absurd (cc)

-- A push with nothing to send changes nothing. Otherwise, where the transport raises, the mailbox
-- is as before and the exception goes on; where it answers, exactly the messages that it took are
-- delivered, all of them are counted, and every other status is as before. The log never changes.
pub push_outbox-Pushed :
    (c : Context) (peer_id : String) (w : World)
    → ((push_outbox c peer_id w).0.log ≡ w.log)
      × (((targets peer_id w ≡ []) × (push_outbox c peer_id w ≡ (w, ok 0)))
          ⊎ Pushed w.mailbox
              (targets peer_id w)
              (c.deliver peer_id (build_messages c w.time_at peer_id (targets peer_id w)).0)
              (push_outbox c peer_id w))
unfolding push_outbox
push_outbox-Pushed c peer_id w = elim (Bool-cases (is_empty (targets peer_id w))) [
  | inl none_left ↦
      rw (none_left, push_outbox) (refl, inl (nil_of_is_empty (targets peer_id w) none_left, refl))
  | inr some_left ↦
      let (messages, at) = build_messages c w.time_at peer_id (targets peer_id w) in
      let w' = record w { time_at = at } in
      let sendable =
        Sendable-select (λ e. e.peer_id == peer_id) w.mailbox
          (load_outbox w.mailbox (some pending_delivery) none)
          (unfold load_events in load_loop-Sendable w.mailbox 0 w.mailbox.outbox) in
      rw (some_left, push_outbox)
        (
          log-push_result w' (targets peer_id w) (c.deliver peer_id messages),
          inr (push_result-Pushed w' (targets peer_id w) (c.deliver peer_id messages) sendable),
        )
]
