-- ===== src/AsyncComm/Peer/Routes.antt =====
-- A question to a peer that can be reached.
use team_harness.Prelude.{
  select, ◌==◌, ap, Bool-cases, sym, ◌∙◌, suc, String, ◌≡◌, refl, Option, none, some, Option-cases,
  inl, inr, List, [], ◌∷◌,
}
use team_harness.Prelude.Dict.{Dict}
use team_harness.Prelude.Result.{ok}
use team_harness.AsyncComm.Types.{realtime_answer, active, Value, text, ConversationEvent}
use team_harness.AsyncComm.Log.States.{HasState, set_conversation_state-HasState}
use team_harness.AsyncComm.Sync.Types.{Message, SyncResult}
use team_harness.AsyncComm.Peer.Types.{Network, Peer}
use team_harness.AsyncComm.Peer.Asks.{
  pending, answer_of, first_reply, build_message, new_event, create_answer_event, answer_or_pending,
  realtime_ask,
}

-- the payload of the answer: that of the reply, or a pending one
abbrev pub reply_payload : Network → Option Message → Dict Value
reply_payload c none = ("answer", text "") ∷ pending
reply_payload c (some m) = ("answer", text (answer_of c m)) ∷ []

-- the first of the messages that reply to an event
abbrev pub first_of : List Message → Option Message
first_of [] = none
first_of (m ∷ ms) = some m

abbrev pub replies_to : String → List Message → List Message
replies_to event_id ms = select (λ (m : Message). m.in_reply_to == event_id) ms

first_reply-select :
    (event_id : String) (ms : List Message)
    → first_reply event_id ms ≡ first_of (replies_to event_id ms)
unfolding first_reply
first_reply-select event_id [] = refl
first_reply-select event_id (m ∷ ms) = elim (Bool-cases (m.in_reply_to == event_id)) [
  | inl same ↦ rw same refl
  | inr differs ↦ rw differs (first_reply-select event_id ms)
]

-- Where the transport takes the question and hands messages over, the answer event replies to the
-- ask event with the text of the first message that replies to it, or says that it is pending if
-- there is none; the conversation becomes active at the answer and the mailbox stays.
pub realtime_ask-first_reply :
    (c : Network) (asked : ConversationEvent) (i question reply : String) (p : Peer)
    (sent : SyncResult) (ms : List Message)
    → ((m : Message) → c.deliver p.calls i (m ∷ []) ≡ ok sent)
    → c.fetch (suc p.calls) i ≡ ok ms
    → let (q, r) = realtime_ask c asked i question reply p in
      (e : ConversationEvent) × (r ≡ ok e)
      × (e.event_type ≡ realtime_answer)
      × (e.in_reply_to ≡ asked.event_id)
      × (e.payload ≡ reply_payload c (first_of (replies_to asked.event_id ms)))
      × HasState q.world.log i active e.event_id
      × (q.world.mailbox ≡ p.world.mailbox)
unfolding realtime_ask build_message answer_or_pending create_answer_event new_event
realtime_ask-first_reply c asked i question reply p sent ms delivers fetches =
    elim (Option-cases (first_reply asked.event_id ms)) [
      | inl silent ↦
          rw (delivers, fetches, silent)
            (
              _,
              refl,
              refl,
              refl,
              ap (reply_payload c) (sym silent ∙ first_reply-select asked.event_id ms),
              (set_conversation_state-HasState _ i active _ "realtime_active" _).0,
              refl,
            )
      | inr (m, is) ↦
          rw (delivers, fetches, is)
            (
              _,
              refl,
              refl,
              refl,
              ap (reply_payload c) (sym is ∙ first_reply-select asked.event_id ms),
              (set_conversation_state-HasState _ i active _ "realtime_active" _).0,
              refl,
            )
    ]
