-- ===== src/AsyncComm/Sync.antt =====
-- The stages of `SyncProtocol` in server/async_comm/sync_protocol.py: push the outbox, pull the
-- inbox, reconcile the simulated answers with the real ones.
pub mod Types
pub mod Events
pub mod Push
pub mod Pull
pub mod Safety
pub mod Reconcile
use Prim.Native.String.{◌++◌ as str_append}
use team_harness.Prelude.{
  ℕ, zero, suc, ◌+◌, String, Bool, true, false, not, ◌&&◌, ◌||◌, Option, none, some, List, [], ◌∷◌,
  ◌++◌, map, length, select, contains, ◌==◌, nonempty, if◌then◌else◌,
}
use team_harness.Prelude.Dict
use team_harness.Prelude.Dict.{Dict}
use team_harness.Prelude.Result.{Result, ok, raise}
use team_harness.AsyncComm.Clock
use team_harness.AsyncComm.Clock.{VectorClock, new_clock}
use team_harness.AsyncComm.Types.{
  EventType, ask, realtime_answer, simulated_answer, Status, pending_delivery, delivered,
  same_event_type, active, Value, text, counts, ConversationEvent, get_or,
}
use team_harness.AsyncComm.Mailbox
use team_harness.AsyncComm.Mailbox.{Mailbox}
use team_harness.AsyncComm.Log
use team_harness.AsyncComm.Log.{ConversationLog}
use team_harness.AsyncComm.Sync.Types.{
  Message, SyncResult, World, Context, SyncProtocolResult, event_text, event_type_of, or_else,
}
use team_harness.AsyncComm.Sync.Events.{
  resolution_event, text_at, build_message, build_messages, event_from_message,
}

abbrev pub is_empty {ℓ} : {A : Type ℓ} → List A → Bool
is_empty [] = true
is_empty (x ∷ xs) = false

-- the events that the transport took
unfoldable pub successful : SyncResult → List ConversationEvent → List ConversationEvent
successful r events =
    if not (is_empty r.delivered_message_ids)
    then select (λ e. contains e.event_id r.delivered_message_ids) events
    else if r.success
    then events
    else []

-- the loop over the successful events; a ValueError is passed over
unfoldable pub mark_delivered : List ConversationEvent → Mailbox → Mailbox × ℕ
mark_delivered [] mb = (mb, 0)
mark_delivered (e ∷ es) mb =
    let (mb', done) = Mailbox.update_status e.event_id delivered mb in
    let (mb'', count) = mark_delivered es mb' in
    (mb'', elim done [ ok true ↦ suc count | _ ↦ count ])

-- status_map.get(decision)
abbrev pub status_of : String → Option Status
status_of decision =
    if decision == "confirmed"
    then some Status.confirmed
    else if decision == "revised"
    then some Status.revised
    else if decision == "needs_human_review"
    then some Status.needs_human_review
    else none

-- _update_mailbox_status_for_resolution: a ValueError is passed over
unfoldable pub update_for_resolution : String → String → Mailbox → Mailbox
update_for_resolution event_id decision mb = elim (status_of decision) [
  | none ↦ mb
  | some s ↦ (Mailbox.update_status event_id s mb).0
]

-- (confirmed, revised, needs_review)
pub record Counts : Type 0 where
  pub confirmed : ℕ
  pub revised : ℕ
  pub needs_review : ℕ

abbrev pub no_counts : Counts
no_counts = record { confirmed = 0; revised = 0; needs_review = 0 }

unfoldable pub tally : String → Counts → Counts
tally decision n =
    if decision == "confirmed"
    then record n { confirmed = suc n.confirmed }
    else if decision == "revised"
    then record n { revised = suc n.revised }
    else if decision == "needs_human_review"
    then record n { needs_review = suc n.needs_review }
    else n

-- `matching[0]`, the first real answer to the same question
unfoldable pub first_answer : String → List ConversationEvent → Option ConversationEvent
first_answer ask_id [] = none
first_answer ask_id (r ∷ rs) = if r.in_reply_to == ask_id then some r else first_answer ask_id rs

abbrev pub of_type : EventType → List ConversationEvent → List ConversationEvent
of_type t = select (λ (e : ConversationEvent). same_event_type e.event_type t)

-- the count of a stage, or 0 and the error
abbrev counted : Result ℕ → ℕ
counted (ok n) = n
counted (raise e) = 0

abbrev failure : String → Result ℕ → List String
failure stage (ok n) = []
failure stage (raise e) = str_append stage (str_append ": " e) ∷ []

-- the end of `_push_outbox`, on the transport's answer: what was written before an exception stays
unfoldable pub push_result : World → List ConversationEvent → Result SyncResult → World × Result ℕ
unfolding successful mark_delivered
push_result w targets (raise e) = (w, raise e)
push_result w targets (ok r) =
    let (mb, count) = mark_delivered (successful r targets) w.mailbox in
    (record w { mailbox = mb }, ok count)

module _ (c : Context) where
  -- _push_outbox
  unfoldable pub push_outbox : String → World → World × Result ℕ
  unfolding build_messages push_result
  push_outbox peer_id w =
      let pending = Mailbox.load_outbox w.mailbox (some pending_delivery) none in
      let targets = select (λ e. e.peer_id == peer_id) pending in
      if is_empty targets
      then (w, ok 0)
      else let (messages, at) = build_messages c w.time_at peer_id targets in
        push_result (record w { time_at = at }) targets (c.deliver peer_id messages)

  -- the body of the loop of `_pull_inbox`
  unfoldable pub receive : Message → World → World
  unfolding event_from_message
  receive m w =
      let e = event_from_message c (c.uuids w.uuid_at) (c.times w.time_at) m in
      record {
        mailbox = (Mailbox.append_inbox e w.mailbox).0;
        log = (Log.append e w.log).0;
        uuid_at = if nonempty m.event_id then w.uuid_at else suc w.uuid_at;
        time_at = if nonempty m.timestamp then w.time_at else suc w.time_at;
      }

  unfoldable pub receive_all : List Message → World → World × ℕ
  unfolding receive
  receive_all [] w = (w, 0)
  receive_all (m ∷ ms) w = let (w', count) = receive_all ms (receive m w) in (w', suc count)

  -- _pull_inbox
  unfoldable pub pull_inbox : String → World → World × Result ℕ
  unfolding receive_all
  pull_inbox peer_id w = elim (c.fetch peer_id) [
    | raise e ↦ (w, raise e)
    | ok ms ↦ let (w', count) = receive_all ms w in (w', ok count)
  ]

  -- the rest of the loop's body, from `resolve` on
  unfoldable pub settle :
      (String → String → String → Result (String × String))
      → String
      → ConversationEvent
      → ConversationEvent
      → World × Counts
      → World × Counts
  settle resolve peer_id sim real (w, n) =
      let simulated = text_at c "answer" sim.payload in
      let answer = text_at c "answer" real.payload in
      elim (resolve simulated answer sim.event_id) [
        | raise e ↦ (w, n)
        | ok (decision, note) ↦
            let e =
              resolution_event (c.uuids w.uuid_at) (c.times w.time_at) peer_id decision sim.event_id
                note simulated answer in
            (
              record {
                mailbox = update_for_resolution sim.event_id decision w.mailbox;
                log = (Log.append e w.log).0;
                uuid_at = suc w.uuid_at;
                time_at = suc w.time_at;
              },
              tally decision n,
            )
      ]

  -- the body of the loop over the simulated answers
  unfoldable pub reconcile_one :
      (String → String → String → Result (String × String))
      → String
      → List ConversationEvent
      → ConversationEvent
      → World × Counts
      → World × Counts
  unfolding settle
  reconcile_one resolve peer_id answers sim s =
      if nonempty sim.in_reply_to
      then elim (first_answer sim.in_reply_to answers) [
        | none ↦ s
        | some real ↦ settle resolve peer_id sim real s
      ]
      else s

  unfoldable pub reconcile_all :
      (String → String → String → Result (String × String))
      → String
      → List ConversationEvent
      → List ConversationEvent
      → World × Counts
      → World × Counts
  unfolding reconcile_one
  reconcile_all resolve peer_id answers [] s = s
  reconcile_all resolve peer_id answers (sim ∷ sims) s =
      reconcile_all resolve peer_id answers sims (reconcile_one resolve peer_id answers sim s)

  -- _reconcile_simulated_answers
  unfoldable pub reconcile : String → World → World × Counts
  unfolding reconcile_all
  reconcile peer_id w = elim c.resolver [
    | none ↦ (w, no_counts)
    | some resolve ↦
        let events = Log.load_by_peer w.log peer_id none in
        reconcile_all resolve peer_id (of_type realtime_answer events)
          (of_type simulated_answer events) (w, no_counts)
  ]

  -- sync_with_peer
  unfoldable pub sync_with_peer : String → World → World × SyncProtocolResult
  sync_with_peer peer_id w =
      let (w₁, pushed) = push_outbox peer_id w in
      let (w₂, pulled) = pull_inbox peer_id w₁ in
      let (w₃, n) = reconcile peer_id w₂ in
      (
        w₃,
        record {
          peer_id = peer_id;
          pushed_count = counted pushed;
          received_count = counted pulled;
          confirmed_count = n.confirmed;
          revised_count = n.revised;
          needs_review_count = n.needs_review;
          errors = failure "push_outbox" pushed ++ failure "pull_inbox" pulled;
        },
      )
