-- ===== src/AsyncComm/Mailbox.antt =====
-- `Mailbox` of server/async_comm/mailbox.py. A file is the list of its lines (no file is no line);
-- a method returns the new mailbox beside its result.
pub mod Files
pub mod Transitions
pub mod Invariant
use Prim.Native.String.{◌++◌ as str_append}
use team_harness.Prelude.{
  ℕ, zero, suc, ◌+◌, String, Bool, true, false, not, ◌&&◌, Option, none, some, List, [], ◌∷◌, ◌++◌,
  eqb, leb, contains, ◌==◌, if◌then◌else◌,
}
use team_harness.Prelude.Dict
use team_harness.Prelude.Dict.{Dict}
use team_harness.Prelude.Result.{Result, ok, raise}
use team_harness.AsyncComm.Clock
use team_harness.AsyncComm.Types.{
  Status, pending_delivery, delivered, status_text, same_status, ConvState, active,
  ConversationEvent, EventDict, EventType, Line, blank, malformed, json, get_or,
}

pub record Mailbox : Type 0 where
  pub peer_id : String
  pub inbox : List Line
  pub outbox : List Line
  -- `_state`, and state.json: `none` if it is missing or unreadable
  pub state : Dict Status
  pub saved : Option (Dict Status)

-- _event_to_dict: `conversation_state` is not written
unfoldable pub event_to_dict : ConversationEvent → EventDict
event_to_dict e = record {
  event_id = some e.event_id;
  event_type = some e.event_type;
  peer_id = some e.peer_id;
  timestamp = some e.timestamp;
  vector_clock = some (Clock.to_dict e.vector_clock);
  payload = some e.payload;
  in_reply_to = some e.in_reply_to;
  degraded = some e.degraded;
  realtime = some e.realtime;
  based_on = some e.based_on;
  snapshot_stale = some e.snapshot_stale;
  conversation_state = none;
}

-- _event_from_dict
unfoldable pub event_from_dict : EventDict → ConversationEvent
event_from_dict d = record {
  event_id = get_or d.event_id "";
  event_type = get_or d.event_type (EventType.other "");
  peer_id = get_or d.peer_id "";
  timestamp = get_or d.timestamp "";
  vector_clock = Clock.from_dict (get_or d.vector_clock []);
  payload = get_or d.payload [];
  in_reply_to = get_or d.in_reply_to "";
  degraded = get_or d.degraded false;
  realtime = get_or d.realtime false;
  based_on = get_or d.based_on "";
  snapshot_stale = get_or d.snapshot_stale false;
  conversation_state = active;
}

-- __init__ over the files of the directory: `_load_state` reads state.json
unfoldable pub open_mailbox : String → List Line → List Line → Option (Dict Status) → Mailbox
open_mailbox peer_id inbox outbox saved = record {
  peer_id = peer_id;
  inbox = inbox;
  outbox = outbox;
  state = get_or saved [];
  saved = saved;
}

-- `_state[event_id] = status` and `_save_state()`
unfoldable pub set_status : String → Status → Mailbox → Mailbox
set_status event_id status mb =
    let state = Dict.put event_id status mb.state in record mb { state = state; saved = some state }

-- `event_id in self._state`
abbrev pub known : String → Mailbox → Bool
known event_id mb = Dict.has event_id mb.state

unfoldable pub append_outbox : ConversationEvent → Mailbox → Mailbox × String
append_outbox e mb = if known e.event_id mb then (mb, e.event_id) else (
  set_status e.event_id pending_delivery
      (record mb { outbox = mb.outbox ++ (json (event_to_dict e) ∷ []) }),
  e.event_id,
)

unfoldable pub append_inbox : ConversationEvent → Mailbox → Mailbox × String
append_inbox e mb = if known e.event_id mb then (mb, e.event_id) else (
  set_status e.event_id delivered (record mb { inbox = mb.inbox ++ (json (event_to_dict e) ∷ []) }),
  e.event_id,
)

-- `len(events) >= limit`
abbrev pub reached : Option ℕ → ℕ → Bool
reached none n = false
reached (some limit) n = leb limit n

-- `status is not None and self._state.get(...) != status`, negated
abbrev pub wanted : Dict Status → Option Status → String → Bool
wanted state none event_id = true
wanted state (some status) event_id = elim (Dict.get event_id state) [
  | none ↦ false
  | some s ↦ same_status s status
]

-- the loop of `_load_events`; `n` events are loaded so far
unfoldable pub load_loop :
    Dict Status → Option Status → Option ℕ → ℕ → List Line → List ConversationEvent
load_loop state status limit n [] = []
load_loop state status limit n (blank ∷ ls) = load_loop state status limit n ls
load_loop state status limit n (malformed ∷ ls) = load_loop state status limit n ls
load_loop state status limit n (json d ∷ ls) =
    let e = event_from_dict d in
    let skip = load_loop state status limit n ls in
    let next = load_loop state status limit (suc n) ls in
    if not (wanted state status e.event_id) then skip else if reached limit n then [] else e ∷ next

unfoldable pub load_events : Mailbox → Option Status → Option ℕ → List Line → List ConversationEvent
unfolding load_loop
load_events mb status limit = load_loop mb.state status limit 0

abbrev pub load_outbox : Mailbox → Option Status → Option ℕ → List ConversationEvent
load_outbox mb status limit = load_events mb status limit mb.outbox

abbrev pub load_inbox : Mailbox → Option Status → Option ℕ → List ConversationEvent
load_inbox mb status limit = load_events mb status limit mb.inbox

-- `new_status in _ALL_STATUSES`
abbrev pub is_status : Status → Bool
is_status (Status.other s) = false
is_status _ = true

-- `new in _VALID_TRANSITIONS.get(current, frozenset())`
unfoldable pub allowed : Status → Status → Bool
allowed Status.pending_delivery Status.delivered = true
allowed Status.pending_delivery Status.confirmed = true
allowed Status.pending_delivery Status.revised = true
allowed Status.pending_delivery Status.needs_human_review = true
allowed Status.delivered Status.confirmed = true
allowed Status.delivered Status.revised = true
allowed Status.delivered Status.needs_human_review = true
allowed _ _ = false

-- the rest of `update_status`, once the message is known
unfoldable pub change_status : String → Status → Status → Mailbox → Mailbox × Result Bool
change_status event_id current new mb =
    if same_status new current
    then (mb, ok true)
    else if not (allowed current new)
    then (
      mb,
      raise (
          str_append "非法状态流转："
            (str_append (status_text current) (str_append " → " (status_text new)))),
    )
    else (set_status event_id new mb, ok true)

unfoldable pub update_status : String → Status → Mailbox → Mailbox × Result Bool
unfolding change_status
update_status event_id new mb =
    if not (is_status new)
    then (mb, raise (str_append "未知状态：" (status_text new)))
    else elim (Dict.get event_id mb.state) [
      | none ↦ (mb, ok false)
      | some current ↦ change_status event_id current new mb
    ]

abbrev pub get_status : Mailbox → String → Option Status
get_status mb event_id = Dict.get event_id mb.state

-- the loop of `pending_delivery_count`
unfoldable pub pending_count : Dict Status → List Line → ℕ
pending_count state [] = 0
pending_count state (json d ∷ ls) =
    let rest = pending_count state ls in
    if wanted state (some pending_delivery) (get_or d.event_id "") then suc rest else rest
pending_count state (_ ∷ ls) = pending_count state ls

unfoldable pub pending_delivery_count : Mailbox → ℕ
unfolding pending_count
pending_delivery_count mb = pending_count mb.state mb.outbox

-- `data.get("event_id") in event_ids`
abbrev pub names_one_of : List String → EventDict → Bool
names_one_of event_ids d = elim d.event_id [ none ↦ false | some i ↦ contains i event_ids ]

-- the reading loop of `remove_delivered`: the lines to write back, and the number dropped
unfoldable pub sweep : List String → List Line → List Line × ℕ
sweep event_ids [] = ([], 0)
sweep event_ids (json d ∷ ls) =
    let (kept, removed) = sweep event_ids ls in
    if names_one_of event_ids d then (kept, suc removed) else (json d ∷ kept, removed)
sweep event_ids (_ ∷ ls) = sweep event_ids ls

unfoldable pub remove_delivered : List String → Mailbox → Mailbox × ℕ
unfolding sweep
remove_delivered event_ids mb =
    let (kept, removed) = sweep event_ids mb.outbox in (record mb { outbox = kept }, removed)
