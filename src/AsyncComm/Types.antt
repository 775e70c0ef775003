-- ===== src/AsyncComm/Types.antt =====
-- The texts of server/async_comm/constants.py, `ConversationEvent` of types.py, and the dict that
-- a JSONL line holds. A text that is none of the constants is `other`.
use team_harness.Prelude.{ℕ, String, Bool, true, false, Option, none, some, ◌==◌}
use team_harness.Prelude.Dict.{Dict}
use team_harness.AsyncComm.Clock.{VectorClock}

-- EVENT_*
pub data EventType : Type 0 where
  ask realtime_answer simulated_answer confirmed revised needs_human_review : EventType
  other : String → EventType

-- STATUS_*
pub data Status : Type 0 where
  pending_delivery delivered confirmed revised needs_human_review : Status
  other : String → Status

-- CONV_STATE_*
pub data ConvState : Type 0 where
  active paused timeout_disconnect resumed : ConvState
  other : String → ConvState

abbrev pub status_text : Status → String
status_text Status.pending_delivery = "pending_delivery"
status_text Status.delivered = "delivered"
status_text Status.confirmed = "confirmed"
status_text Status.revised = "revised"
status_text Status.needs_human_review = "needs_human_review"
status_text (Status.other s) = s

abbrev pub conv_state_text : ConvState → String
conv_state_text active = "active"
conv_state_text paused = "paused"
conv_state_text timeout_disconnect = "timeout_disconnect"
conv_state_text resumed = "resumed"
conv_state_text (ConvState.other s) = s

-- a == b on two statuses
abbrev pub same_status : Status → Status → Bool
same_status Status.pending_delivery Status.pending_delivery = true
same_status Status.delivered Status.delivered = true
same_status Status.confirmed Status.confirmed = true
same_status Status.revised Status.revised = true
same_status Status.needs_human_review Status.needs_human_review = true
same_status (Status.other s) (Status.other t) = s == t
same_status _ _ = false

abbrev pub same_conv_state : ConvState → ConvState → Bool
same_conv_state active active = true
same_conv_state paused paused = true
same_conv_state timeout_disconnect timeout_disconnect = true
same_conv_state resumed resumed = true
same_conv_state (ConvState.other s) (ConvState.other t) = s == t
same_conv_state _ _ = false

abbrev pub same_event_type : EventType → EventType → Bool
same_event_type ask ask = true
same_event_type realtime_answer realtime_answer = true
same_event_type simulated_answer simulated_answer = true
same_event_type EventType.confirmed EventType.confirmed = true
same_event_type EventType.revised EventType.revised = true
same_event_type EventType.needs_human_review EventType.needs_human_review = true
same_event_type (EventType.other s) (EventType.other t) = s == t
same_event_type _ _ = false

-- A value of a payload: a text, a dict of numbers (a serialised clock), or another JSON value,
-- known by an identity alone.
pub data Value : Type 0 where
  text : String → Value
  counts : Dict ℕ → Value
  opaque_value : ℕ → Value

pub record ConversationEvent : Type 0 where
  pub event_id : String
  pub event_type : EventType
  pub peer_id : String
  pub timestamp : String
  pub vector_clock : VectorClock
  pub payload : Dict Value
  pub in_reply_to : String
  pub degraded : Bool
  pub realtime : Bool
  pub based_on : String
  pub snapshot_stale : Bool
  pub conversation_state : ConvState

-- The JSON object of a line: each key of `_event_to_dict`, which may be missing.
pub record EventDict : Type 0 where
  pub event_id : Option String
  pub event_type : Option EventType
  pub peer_id : Option String
  pub timestamp : Option String
  pub vector_clock : Option (Dict ℕ)
  pub payload : Option (Dict Value)
  pub in_reply_to : Option String
  pub degraded : Option Bool
  pub realtime : Option Bool
  pub based_on : Option String
  pub snapshot_stale : Option Bool
  pub conversation_state : Option ConvState

-- A line of a JSONL file: empty after `strip`, no JSON, or an object.
pub data Line : Type 0 where
  blank malformed : Line
  json : EventDict → Line

-- data.get(key, default)
abbrev pub get_or {ℓ} : {A : Type ℓ} → Option A → A → A
get_or none d = d
get_or (some a) d = a
