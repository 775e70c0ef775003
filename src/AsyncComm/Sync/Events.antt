-- ===== src/AsyncComm/Sync/Events.antt =====
-- Events as messages and messages as events: `_build_message_from_event`, `_event_from_message` and
-- `_create_resolution_event` of server/async_comm/sync_protocol.py.
use team_harness.Prelude.{
  ℕ, suc, String, false, none, some, List, [], ◌∷◌, ◌++◌, ◌==◌, nonempty, if◌then◌else◌,
}
use team_harness.Prelude.Dict
use team_harness.Prelude.Dict.{Dict}
use team_harness.AsyncComm.Clock
use team_harness.AsyncComm.Clock.{VectorClock, new_clock}
use team_harness.AsyncComm.Types.{
  EventType, ask, realtime_answer, same_event_type, active, Value, text, counts, ConversationEvent,
}
use team_harness.AsyncComm.Sync.Types.{Message, Context, event_text, event_type_of, or_else}

abbrev clock_in : Dict Value → VectorClock
clock_in payload = elim (Dict.get "vector_clock" payload) [
  | some (counts d) ↦ Clock.from_dict d
  | _ ↦ new_clock
]

-- _create_resolution_event
unfoldable pub resolution_event :
    String → String → String → String → String → String → String → String → ConversationEvent
resolution_event uuid now peer_id decision in_reply_to note simulated real =
    let base : Dict Value = ("decision", text decision) ∷ ("note", text note) ∷ [] in
    let with_simulated : Dict Value =
      if nonempty simulated then base ++ ("simulated_answer", text simulated) ∷ [] else base in
    record {
      event_id = uuid;
      event_type = event_type_of decision;
      peer_id = peer_id;
      timestamp = now;
      vector_clock = new_clock;
      payload =
          if nonempty real
          then with_simulated ++ ("real_answer", text real) ∷ []
          else with_simulated;
      in_reply_to = in_reply_to;
      degraded = false;
      realtime = false;
      based_on = "";
      snapshot_stale = false;
      conversation_state = active;
    }

module _ (c : Context) where
  -- str(payload.get(key, ""))
  abbrev pub text_at : String → Dict Value → String
  text_at key payload = elim (Dict.get key payload) [
    | none ↦ ""
    | some (text s) ↦ s
    | some v ↦ c.repr v
  ]

  -- _build_message_from_event; `now` is the clock, read if the event has no time
  unfoldable pub build_message : String → String → ConversationEvent → Message
  build_message now peer_id e = record {
    message_id = e.event_id;
    event_id = e.event_id;
    sender_id = c.member_id;
    recipient_id = peer_id;
    msg_type = event_text e.event_type;
    payload = e.payload;
    timestamp = or_else e.timestamp now;
    in_reply_to = e.in_reply_to;
    sender_key_hash = "";
    signature = "";
  }

  unfoldable pub build_messages : ℕ → String → List ConversationEvent → List Message × ℕ
  build_messages at peer_id [] = ([], at)
  build_messages at peer_id (e ∷ es) =
      let next = if nonempty e.timestamp then at else suc at in
      let (messages, last) = build_messages next peer_id es in
      (build_message (c.times at) peer_id e ∷ messages, last)

  -- the type that a message stands for
  unfoldable pub type_of_message : Message → EventType
  type_of_message m =
      let named = text_at "_event_type" m.payload in
      if nonempty named
      then event_type_of named
      else if m.msg_type == "answer"
      then realtime_answer
      else if m.msg_type == "ask"
      then ask
      else event_type_of m.msg_type

  -- _event_from_message
  unfoldable pub event_from_message : String → String → Message → ConversationEvent
  unfolding type_of_message
  event_from_message uuid now m = record {
    event_id = or_else m.event_id uuid;
    event_type = type_of_message m;
    peer_id = m.sender_id;
    timestamp = or_else m.timestamp now;
    vector_clock = clock_in m.payload;
    payload = m.payload;
    in_reply_to = m.in_reply_to;
    degraded = false;
    realtime = same_event_type (type_of_message m) realtime_answer;
    based_on = "";
    snapshot_stale = false;
    conversation_state = active;
  }
