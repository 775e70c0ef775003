-- ===== src/AsyncComm/Sync/Types.antt =====
-- `Message` and `SyncResult` of server/transport/types.py, and what `SyncProtocol` works on. The
-- transport and the resolver are injected: they are parameters, and so are `uuid4` and `str` of a
-- value that is no text. The clock and the fresh ids are the streams of `Context`; `World` has the
-- places that are next.
use team_harness.Prelude.{ℕ, String, Bool, Option, List, ◌==◌, nonempty, if◌then◌else◌}
use team_harness.Prelude.Dict.{Dict}
use team_harness.Prelude.Result.{Result}
use team_harness.AsyncComm.Types.{EventType, ask, realtime_answer, simulated_answer, Value}
use team_harness.AsyncComm.Mailbox.{Mailbox}
use team_harness.AsyncComm.Log.{ConversationLog}

pub record Message : Type 0 where
  pub message_id : String
  pub event_id : String
  pub sender_id : String
  pub recipient_id : String
  pub msg_type : String
  pub payload : Dict Value
  pub timestamp : String
  pub in_reply_to : String
  pub sender_key_hash : String
  pub signature : String

pub record SyncResult : Type 0 where
  pub success : Bool
  pub delivered_count : ℕ
  pub failed_count : ℕ
  pub pending_count : ℕ
  pub error : String
  pub delivered_message_ids : List String

-- what the protocol changes
pub record World : Type 0 where
  pub mailbox : Mailbox
  pub log : ConversationLog
  pub uuid_at : ℕ
  pub time_at : ℕ

-- what it is given
pub record Context : Type 0 where
  pub member_id : String
  pub deliver : String → List Message → Result SyncResult
  pub fetch : String → Result (List Message)
  -- `conflict_resolver.resolve(simulated_answer, real_answer, event_id)`, if there is one
  pub resolver : Option (String → String → String → Result (String × String))
  pub uuids : ℕ → String
  pub times : ℕ → String
  -- `str(x)` of a value that is no text
  pub repr : Value → String

pub record SyncProtocolResult : Type 0 where
  pub peer_id : String
  pub pushed_count : ℕ
  pub received_count : ℕ
  pub confirmed_count : ℕ
  pub revised_count : ℕ
  pub needs_review_count : ℕ
  pub errors : List String

abbrev pub event_text : EventType → String
event_text ask = "ask"
event_text realtime_answer = "realtime_answer"
event_text simulated_answer = "simulated_answer"
event_text EventType.confirmed = "confirmed"
event_text EventType.revised = "revised"
event_text EventType.needs_human_review = "needs_human_review"
event_text (EventType.other s) = s

-- the constant that a text is, or `other`
abbrev pub event_type_of : String → EventType
event_type_of s =
    if s == "ask"
    then ask
    else if s == "realtime_answer"
    then realtime_answer
    else if s == "simulated_answer"
    then simulated_answer
    else if s == "confirmed"
    then EventType.confirmed
    else if s == "revised"
    then EventType.revised
    else if s == "needs_human_review"
    then EventType.needs_human_review
    else EventType.other s

-- `a or b` on texts
abbrev pub or_else : String → String → String
or_else a b = if nonempty a then a else b
