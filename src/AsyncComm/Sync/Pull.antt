-- ===== src/AsyncComm/Sync/Pull.antt =====
-- Pulling: what is received is stored once, and pulling the same messages again changes nothing.
use team_harness.Prelude.{
  suc, String, ◌≡◌, ◌≢◌, inl, inr, refl, ap, ◌∙◌, Bool, true, false, ◌||◌, List, [], ◌∷◌, arith,
  length, nonempty, ◌==◌, ==_iff, if◌then◌else◌, Bool-cases,
}
use team_harness.Prelude.Dict.{get-put}
use team_harness.Prelude.Result.{ok}
use team_harness.AsyncComm.Types.{EventType, ask, realtime_answer, delivered, ConversationEvent}
use team_harness.AsyncComm.Mailbox.{Mailbox, known, append_inbox, set_status}
use team_harness.AsyncComm.Log.{exists}
use team_harness.AsyncComm.Log.Queries.{exists-append, append_known}
use team_harness.AsyncComm.Sync.Types.{Message, World, Context, event_text, event_type_of}
use team_harness.AsyncComm.Sync.Events.{build_message, event_from_message, type_of_message, text_at}
use team_harness.AsyncComm.Sync.{receive, receive_all, pull_inbox}

known-append_inbox :
    (i : String) (e : ConversationEvent) (mb : Mailbox)
    → known i (append_inbox e mb).0 ≡ (known i mb || (e.event_id == i))
unfolding append_inbox set_status
known-append_inbox i e mb =
    ground (arith, get-put e.event_id i delivered mb.state, ==_iff e.event_id i)

append_inbox-known :
    (e : ConversationEvent) (mb : Mailbox) → known e.event_id mb ≡ true → (append_inbox e mb).0 ≡ mb
unfolding append_inbox
append_inbox-known e mb h = rw h

if_again {ℓ} :
    {A : Type ℓ} (b : Bool) (x y : A)
    → (if b then x else (if b then x else y)) ≡ (if b then x else y)
if_again true x y = refl
if_again false x y = refl

module _ (c : Context) where
  -- the id is in the mailbox and in the log
  abbrev Stored : String → World → Type 0
  Stored i w = (known i w.mailbox ≡ true) × (exists i w.log ≡ true)

  abbrev AllStored : List Message → World → Type 0
  AllStored [] w = Unit
  AllStored (m ∷ ms) w = Stored m.event_id w × AllStored ms w

  abbrev pub HaveIds : List Message → Type 0
  HaveIds [] = Unit
  HaveIds (m ∷ ms) = (nonempty m.event_id ≡ true) × HaveIds ms

  id-receive :
      (uuid now : String) (m : Message)
      → nonempty m.event_id ≡ true
      → (event_from_message c uuid now m).event_id ≡ m.event_id
  unfolding event_from_message
  id-receive uuid now m h = rw h

  Stored-receive : (i : String) (m : Message) (w : World) → Stored i w → Stored i (receive c m w)
  unfolding receive
  Stored-receive i m w s =
      let e = event_from_message c (c.uuids w.uuid_at) (c.times w.time_at) m in
      (ground (arith, known-append_inbox i e w.mailbox), ground (arith, exists-append i e w.log))

  Stored-received :
      (m : Message) (w : World) → nonempty m.event_id ≡ true → Stored m.event_id (receive c m w)
  unfolding receive
  Stored-received m w h =
      let e = event_from_message c (c.uuids w.uuid_at) (c.times w.time_at) m in
      let same = id-receive (c.uuids w.uuid_at) (c.times w.time_at) m h in
      (
        ground
            (arith, known-append_inbox m.event_id e w.mailbox, ==_iff e.event_id m.event_id, same),
        ground (arith, exists-append m.event_id e w.log, ==_iff e.event_id m.event_id, same),
      )

  Stored-receive_all :
      (i : String) (ms : List Message) (w : World) → Stored i w → Stored i (receive_all c ms w).0
  unfolding receive_all
  Stored-receive_all i [] w s = s
  Stored-receive_all i (m ∷ ms) w s =
      Stored-receive_all i ms (receive c m w) (Stored-receive i m w s)

  receive_all-AllStored :
      (ms : List Message) (w : World) → HaveIds ms → AllStored ms (receive_all c ms w).0
  unfolding receive_all
  receive_all-AllStored [] w h = tt
  receive_all-AllStored (m ∷ ms) w h = (
    Stored-receive_all m.event_id ms (receive c m w) (Stored-received m w h.0),
    receive_all-AllStored ms (receive c m w) h.1,
  )

  abbrev SameStores : World → World → Type 0
  SameStores v w = (v.mailbox ≡ w.mailbox) × (v.log ≡ w.log)

  receive-SameStores :
      (m : Message) (w : World)
      → nonempty m.event_id ≡ true
      → Stored m.event_id w
      → SameStores (receive c m w) w
  unfolding receive
  receive-SameStores m w h s =
      let e = event_from_message c (c.uuids w.uuid_at) (c.times w.time_at) m in
      let same = id-receive (c.uuids w.uuid_at) (c.times w.time_at) m h in
      (
        append_inbox-known e w.mailbox (ap (λ i. known i w.mailbox) same ∙ s.0),
        append_known e w.log (ap (λ i. exists i w.log) same ∙ s.1),
      )

  AllStored-SameStores :
      (ms : List Message) (v w : World) → SameStores v w → AllStored ms w → AllStored ms v
  AllStored-SameStores [] v w e s = tt
  AllStored-SameStores (m ∷ ms) v w e s = (
    (ap (λ mb. known m.event_id mb) e.0 ∙ s.0.0, ap (λ log. exists m.event_id log) e.1 ∙ s.0.1),
    AllStored-SameStores ms v w e s.1,
  )

  receive_all-SameStores :
      (ms : List Message) (w : World)
      → HaveIds ms
      → AllStored ms w
      → SameStores (receive_all c ms w).0 w
  unfolding receive_all
  receive_all-SameStores [] w h s = (refl, refl)
  receive_all-SameStores (m ∷ ms) w h s =
      let once = receive-SameStores m w h.0 s.0 in
      let rest =
        receive_all-SameStores ms (receive c m w) h.1
          (AllStored-SameStores ms (receive c m w) w once s.1) in
      (rest.0 ∙ once.0, rest.1 ∙ once.1)

  count-receive_all : (ms : List Message) (w : World) → (receive_all c ms w).1 ≡ length ms
  unfolding receive_all
  count-receive_all [] w = refl
  count-receive_all (m ∷ ms) w = ap suc (count-receive_all ms (receive c m w))

  pull_inbox-receive_all :
      (peer_id : String) (w : World) (ms : List Message)
      → c.fetch peer_id ≡ ok ms
      → pull_inbox c peer_id w ≡ ((receive_all c ms w).0, ok (length ms))
  unfolding pull_inbox
  pull_inbox-receive_all peer_id w ms fetched =
      rw (pull_inbox, fetched) (ap (λ n. ((receive_all c ms w).0, ok n)) (count-receive_all ms w))

  -- A pull counts every message that the transport hands over. If each of them has an id, a second
  -- pull of the same messages counts them again and leaves the mailbox and the log as they are.
  pub pull_inbox_twice :
      (peer_id : String) (w : World) (ms : List Message)
      → c.fetch peer_id ≡ ok ms
      → HaveIds ms
      → let once = pull_inbox c peer_id w in
        let twice = pull_inbox c peer_id once.0 in
        (once.1 ≡ ok (length ms))
        × (twice.1 ≡ ok (length ms))
        × (twice.0.mailbox ≡ once.0.mailbox)
        × (twice.0.log ≡ once.0.log)
  pull_inbox_twice peer_id w ms fetched h =
      let after = (receive_all c ms w).0 in
      let same = receive_all-SameStores ms after h (receive_all-AllStored ms w h) in
      rw
        (
          pull_inbox-receive_all peer_id w ms fetched,
          pull_inbox-receive_all peer_id after ms fetched,
        )
        (refl, refl, same.0, same.1)

  -- the payload of the event does not name a type
  type_of_message-event_text :
      (m : Message) (t : EventType)
      → nonempty (text_at c "_event_type" m.payload) ≡ false
      → event_type_of (event_text t) ≡ t
      → t ≢ EventType.other "answer"
      → m.msg_type ≡ event_text t
      → type_of_message c m ≡ t
  unfolding type_of_message
  type_of_message-event_text m ask plain known_ other_ is = rw (plain, is) refl
  type_of_message-event_text m realtime_answer plain known_ other_ is = rw (plain, is) refl
  type_of_message-event_text m EventType.simulated_answer plain known_ other_ is =
      rw (plain, is) refl
  type_of_message-event_text m EventType.confirmed plain known_ other_ is = rw (plain, is) refl
  type_of_message-event_text m EventType.revised plain known_ other_ is = rw (plain, is) refl
  type_of_message-event_text m EventType.needs_human_review plain known_ other_ is =
      rw (plain, is) refl
  type_of_message-event_text m (EventType.other s) plain known_ other_ is =
      rw (plain, is)
        (elim (Bool-cases (s == "answer")) [
          | inl h ↦ elim (other_ (ap EventType.other ((==_iff s "answer").0 h))) [ ]
          | inr h ↦ rw h (if_again (s == "ask") ask _ ∙ known_)
        ])

  -- An event with an id and a time that one side sends and the other receives keeps its id, time,
  -- payload and question, and is filed under the sender. It keeps its type, unless the payload
  -- names another or the type is none of the constants and reads as one.
  pub event_from_message-build_message :
      (sent received uuid peer_id : String) (e : ConversationEvent)
      → nonempty e.event_id ≡ true
      → nonempty e.timestamp ≡ true
      → event_type_of (event_text e.event_type) ≡ e.event_type
      → e.event_type ≢ EventType.other "answer"
      → nonempty (text_at c "_event_type" e.payload) ≡ false
      → let got = event_from_message c uuid received (build_message c sent peer_id e) in
        (got.event_id ≡ e.event_id)
        × (got.event_type ≡ e.event_type)
        × (got.peer_id ≡ c.member_id)
        × (got.timestamp ≡ e.timestamp)
        × (got.payload ≡ e.payload)
        × (got.in_reply_to ≡ e.in_reply_to)
  unfolding event_from_message build_message
  event_from_message-build_message sent received uuid peer_id e id time type_ not_answer plain = (
    rw id refl,
    type_of_message-event_text (build_message c sent peer_id e) e.event_type plain type_ not_answer
        refl,
    refl,
    rw (time, time) refl,
    refl,
    refl,
  )
