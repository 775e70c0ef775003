-- ===== src/AsyncComm/Peer/Asks.antt =====
-- `PeerComm` of server/async_comm/peer_comm.py: the question to one peer, which goes to the peer
-- where it can be reached, and to its shadow where it cannot.
use team_harness.Prelude.{
  ℕ, ◌+◌, String, Bool, true, false, Option, none, some, List, [], ◌∷◌, ◌++◌, ltb, ◌==◌,
  if◌then◌else◌,
}
use team_harness.Prelude.Dict
use team_harness.Prelude.Dict.{Dict}
use team_harness.Prelude.Result.{ok}
use team_harness.AsyncComm.Clock
use team_harness.AsyncComm.Clock.{VectorClock}
use team_harness.AsyncComm.Types.{
  EventType, ask, realtime_answer, active, paused, Value, text, counts, ConversationEvent,
}
use team_harness.AsyncComm.Sync.Types.{Message}
use team_harness.AsyncComm.Peer.Types.{
  Network, Peer, Step, ◌>>=◌, ◌>>◌, give, fail, log_event, put_outbox, fresh_uuid, utcnow, time_now,
  deliver_to, fetch_from, probe_peer, set_state,
}
use team_harness.AsyncComm.Peer.Shadow.{shadow_ask}

-- the cached answer, if it is young enough
abbrev pub still_valid : ℕ → ℕ → Option (Bool × ℕ) → Option Bool
still_valid interval now none = none
still_valid interval now (some (is_reachable, cached_at)) =
    if ltb now (cached_at + interval) then some is_reachable else none

-- the first message that replies to `event_id`
unfoldable pub first_reply : String → List Message → Option Message
first_reply event_id [] = none
first_reply event_id (m ∷ ms) =
    if m.in_reply_to == event_id then some m else first_reply event_id ms

-- {"status": "pending"} and {"tag_routing": reason}, as far as they are set
abbrev pub pending : Dict Value
pending = ("status", text "pending") ∷ []

module _ (c : Network) where
  -- str(msg.payload.get("answer", ""))
  abbrev pub answer_of : Message → String
  answer_of m = elim (Dict.get "answer" m.payload) [
    | none ↦ ""
    | some (text s) ↦ s
    | some v ↦ c.repr v
  ]

  -- the probe that `_is_peer_reachable` makes, and caches
  unfoldable pub probe_and_cache : String → ℕ → Step Bool
  probe_and_cache peer_id now = do
    is_reachable ← probe_peer c peer_id
    λ p. (
      record p { reachability = Dict.put peer_id (is_reachable, now) p.reachability },
      ok is_reachable,
    )

  -- the cached answer, or the probe's
  unfoldable pub cached_or_probed : String → ℕ → Option Bool → Step Bool
  unfolding probe_and_cache
  cached_or_probed peer_id now (some is_reachable) = give is_reachable
  cached_or_probed peer_id now none = probe_and_cache peer_id now

  unfoldable pub reachable_at : String → ℕ → Step Bool
  unfolding cached_or_probed
  reachable_at peer_id now p =
      cached_or_probed peer_id now
        (still_valid c.network_check_interval now (Dict.get peer_id p.reachability)) p

  -- _is_peer_reachable
  unfoldable pub is_peer_reachable : String → Step Bool
  unfolding reachable_at
  is_peer_reachable peer_id = do now ← time_now c; reachable_at peer_id now

  -- _build_message
  unfoldable pub build_message : String → String → Dict Value → String → String → Step Message
  build_message peer_id msg_type payload event_id in_reply_to = do
    message_id ← fresh_uuid c
    timestamp ← utcnow c
    give (record {
      message_id = message_id;
      event_id = event_id;
      sender_id = c.member_id;
      recipient_id = peer_id;
      msg_type = msg_type;
      payload = payload;
      timestamp = timestamp;
      in_reply_to = in_reply_to;
      sender_key_hash = "";
      signature = "";
    })

  -- an event of this member's, with a copy of the local clock
  unfoldable pub new_event :
      EventType → String → Dict Value → String → Bool → VectorClock → Step ConversationEvent
  new_event type_ peer_id payload in_reply_to realtime vc = do
    event_id ← fresh_uuid c
    timestamp ← utcnow c
    give (record {
      event_id = event_id;
      event_type = type_;
      peer_id = peer_id;
      timestamp = timestamp;
      vector_clock = Clock.from_dict (Clock.to_dict vc);
      payload = payload;
      in_reply_to = in_reply_to;
      degraded = false;
      realtime = realtime;
      based_on = "";
      snapshot_stale = false;
      conversation_state = active;
    })

  abbrev pub ticked : Peer → Peer
  ticked p = record p { local_clock = Clock.increment c.member_id p.local_clock }

  -- _create_ask_event; `routing` is what the caller adds to the payload
  unfoldable pub create_ask_event : String → String → String → Dict Value → Step ConversationEvent
  unfolding new_event
  create_ask_event peer_id question in_reply_to routing p =
      new_event ask peer_id (("question", text question) ∷ routing) in_reply_to false
        (ticked p).local_clock (ticked p)

  -- _create_realtime_answer_event, with what the caller adds to the payload
  unfoldable pub create_answer_event :
      String → String → String → Dict Value → Step ConversationEvent
  unfolding new_event
  create_answer_event peer_id answer in_reply_to marks p =
      new_event realtime_answer peer_id (("answer", text answer) ∷ marks) in_reply_to true
        p.local_clock p

  -- the answer event of `_realtime_ask`: the answer's, or a pending one
  unfoldable pub answer_or_pending : String → String → Option Message → Step ConversationEvent
  unfolding create_answer_event
  answer_or_pending peer_id ask_id none = create_answer_event peer_id "" ask_id pending
  answer_or_pending peer_id ask_id (some m) = create_answer_event peer_id (answer_of m) ask_id []

  -- _realtime_ask
  unfoldable pub realtime_ask :
      ConversationEvent → String → String → String → Step ConversationEvent
  unfolding build_message answer_or_pending
  realtime_ask asked peer_id question in_reply_to = do
    message ←
        build_message peer_id "ask"
          (("question", text question)
            ∷ ("vector_clock", counts (Clock.to_dict asked.vector_clock))
            ∷ [])
          asked.event_id in_reply_to
    sent ← deliver_to c peer_id (message ∷ [])
    responses ← fetch_from c peer_id
    answer ← answer_or_pending peer_id asked.event_id (first_reply asked.event_id responses)
    log_event answer
    set_state c peer_id active answer.event_id "realtime_active"
    give answer

  -- the call of the injected `shadow_comm`
  unfoldable pub ask_shadow :
      Step ConversationEvent → String → String → String → Step ConversationEvent
  unfolding shadow_ask
  ask_shadow missing_ peer_id question in_reply_to = elim c.shadow [
    | none ↦ missing_
    | some s ↦ shadow_ask c s peer_id question in_reply_to
  ]

  -- _offline_ask
  unfoldable pub offline_ask : ConversationEvent → String → String → Step ConversationEvent
  unfolding ask_shadow
  offline_ask asked peer_id question = do
    put_outbox asked
    set_state c peer_id paused asked.event_id "peer_offline"
    ask_shadow (fail "shadow_comm not configured for offline communication") peer_id question
        asked.event_id

  -- _targeted_ask
  unfoldable pub targeted_ask : String → String → String → Step ConversationEvent
  unfolding create_ask_event realtime_ask
  targeted_ask peer_id question in_reply_to = do
    asked ← create_ask_event peer_id question in_reply_to []
    log_event asked
    realtime_ask asked peer_id question in_reply_to

  -- the end of `_fallback_to_shadow` where there is no shadow
  unfoldable pub pending_answer : String → String → String → Step ConversationEvent
  unfolding create_answer_event
  pending_answer peer_id ask_id reason = do
    answer ← create_answer_event peer_id "" ask_id (pending ++ ("tag_routing", text reason) ∷ [])
    log_event answer
    give answer

  -- _fallback_to_shadow
  unfoldable pub fallback_to_shadow : String → String → String → String → Step ConversationEvent
  unfolding create_ask_event pending_answer ask_shadow
  fallback_to_shadow peer_id question in_reply_to reason = do
    asked ← create_ask_event peer_id question in_reply_to (("tag_routing", text reason) ∷ [])
    log_event asked
    put_outbox asked
    ask_shadow (pending_answer peer_id asked.event_id reason) peer_id question asked.event_id
