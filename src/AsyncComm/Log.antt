-- ===== src/AsyncComm/Log.antt =====
-- `ConversationLog` of server/async_comm/conversation_log.py: the append-only event file, and the
-- conversation states beside it. `now` is the clock's reading where the method takes one.
pub mod Thread
pub mod Queries
pub mod States
use team_harness.Prelude.{
  ℕ, zero, suc, String, Bool, true, false, not, ◌&&◌, ◌||◌, Option, none, some, List, [], ◌∷◌, ◌++◌,
  take, length, select, contains, ◌==◌, nonempty, is_some, if◌then◌else◌,
}
use Prim.Native.String.{◌++◌ as str_append}
use team_harness.Prelude.Dict
use team_harness.Prelude.Dict.{Dict}
use team_harness.Prelude.Sort.{sort_by}
use team_harness.AsyncComm.Clock
use team_harness.AsyncComm.Types.{
  EventType, ConvState, active, paused, timeout_disconnect, resumed, conv_state_text,
  same_conv_state, same_event_type, ConversationEvent, EventDict, Line, blank, malformed, json,
  get_or,
}

-- a value of conversation_state.json
pub record Entry : Type 0 where
  pub peer_id : String
  pub state : ConvState
  pub last_event_id : String
  pub reason : String
  pub updated_at : String

pub record ConversationLog : Type 0 where
  pub lines : List Line
  -- `_state_cache`, and conversation_state.json: `none` if it is missing or unreadable
  pub cache : Dict Entry
  pub saved : Option (Dict Entry)

-- __init__: `_load_state_file` reads the states
unfoldable pub open_log : List Line → Option (Dict Entry) → ConversationLog
open_log lines saved = record { lines = lines; cache = get_or saved []; saved = saved }

unfoldable pub event_to_dict : ConversationEvent → EventDict
event_to_dict e = record {
  event_id = some e.event_id;
  event_type = some e.event_type;
  peer_id = some e.peer_id;
  timestamp = some e.timestamp;
  vector_clock = some (Clock.to_dict e.vector_clock);
  payload = some e.payload;
  in_reply_to = some e.in_reply_to;
  degraded = some e.degraded;
  realtime = some e.realtime;
  based_on = some e.based_on;
  snapshot_stale = some e.snapshot_stale;
  conversation_state = some e.conversation_state;
}

infixl 5 ◌>>=◌
abbrev ◌>>=◌ : {A B : Type 0} → Option A → (A → Option B) → Option B
none >>= f = none
some a >>= f = f a

-- `none` is the KeyError of a missing required key
unfoldable pub event_from_dict : EventDict → Option ConversationEvent
event_from_dict d = do
  event_id ← d.event_id
  event_type ← d.event_type
  peer_id ← d.peer_id
  timestamp ← d.timestamp
  some (record {
    event_id = event_id;
    event_type = event_type;
    peer_id = peer_id;
    timestamp = timestamp;
    vector_clock = Clock.from_dict (get_or d.vector_clock []);
    payload = get_or d.payload [];
    in_reply_to = get_or d.in_reply_to "";
    degraded = get_or d.degraded false;
    realtime = get_or d.realtime false;
    based_on = get_or d.based_on "";
    snapshot_stale = get_or d.snapshot_stale false;
    conversation_state = get_or d.conversation_state active;
  })

-- the loop of `exists`
unfoldable pub exists_in : String → List Line → Bool
exists_in event_id [] = false
exists_in event_id (json d ∷ ls) =
    elim d.event_id [ none ↦ false | some i ↦ i == event_id ] || exists_in event_id ls
exists_in event_id (_ ∷ ls) = exists_in event_id ls

abbrev pub exists : String → ConversationLog → Bool
exists event_id log = exists_in event_id log.lines

unfoldable pub append : ConversationEvent → ConversationLog → ConversationLog × String
append e log =
    if exists e.event_id log
    then (log, e.event_id)
    else (record log { lines = log.lines ++ json (event_to_dict e) ∷ [] }, e.event_id)

-- the loop of `_read_all`: a line that does not parse is skipped
unfoldable pub read_lines : List Line → List ConversationEvent
read_lines [] = []
read_lines (json d ∷ ls) =
    let rest = read_lines ls in elim (event_from_dict d) [ none ↦ rest | some e ↦ e ∷ rest ]
read_lines (_ ∷ ls) = read_lines ls

abbrev pub read_all : ConversationLog → List ConversationEvent
read_all log = read_lines log.lines

abbrev pub by_time : List ConversationEvent → List ConversationEvent
by_time = sort_by (λ (e : ConversationEvent). e.timestamp)

-- `events[:limit]` if there is a limit
abbrev pub limited {ℓ} : {A : Type ℓ} → Option ℕ → List A → List A
limited none xs = xs
limited (some n) xs = take n xs

unfoldable pub load_all : ConversationLog → Option ℕ → List ConversationEvent
load_all log limit = limited limit (by_time (read_all log))

unfoldable pub load_by_peer : ConversationLog → String → Option ℕ → List ConversationEvent
load_by_peer log peer_id limit =
    limited limit (by_time (select (λ e. e.peer_id == peer_id) (read_all log)))

unfoldable pub load_by_type : ConversationLog → EventType → Option ℕ → List ConversationEvent
load_by_type log event_type limit =
    limited limit (by_time (select (λ e. same_event_type e.event_type event_type) (read_all log)))

unfoldable pub count : ConversationLog → Option String → Option EventType → ℕ
count log peer_id event_type =
    let events = read_all log in
    let of_peer : List ConversationEvent = elim peer_id [
      | none ↦ events
      | some p ↦ select (λ e. e.peer_id == p) events
    ] in
    let of_type : List ConversationEvent = elim event_type [
      | none ↦ of_peer
      | some t ↦ select (λ e. same_event_type e.event_type t) of_peer
    ] in
    length of_type

-- the loop of `get_event`
unfoldable pub find_event : String → List ConversationEvent → Option ConversationEvent
find_event event_id [] = none
find_event event_id (e ∷ es) = if e.event_id == event_id then some e else find_event event_id es

unfoldable pub get_event : ConversationLog → String → Option ConversationEvent
unfolding find_event
get_event log event_id = find_event event_id (read_all log)

-- {e.event_id: e for e in all_events}
unfoldable pub index_events :
    Dict ConversationEvent → List ConversationEvent → Dict ConversationEvent
index_events d [] = d
index_events d (e ∷ es) = index_events (Dict.put e.event_id e d) es

abbrev pub by_id : List ConversationEvent → Dict ConversationEvent
by_id = index_events []

-- The first `while` of `load_thread`: the predecessors. `none` is the end of the fuel.
unfoldable pub walk_up :
    Dict ConversationEvent → ℕ → ConversationEvent → List String → Option (List String)
walk_up ids zero current related = none
walk_up ids (suc fuel) current related =
    if nonempty current.in_reply_to
    then elim (Dict.get current.in_reply_to ids) [
      | none ↦ some related
      | some parent ↦ elim (contains current.in_reply_to related) [
        | true ↦ some related
        | false ↦ walk_up ids fuel parent (current.in_reply_to ∷ related)
      ]
    ]
    else some related

-- the `for` of the second `while`: replies to `current_id` that are new; the top of the stack is
-- its head
unfoldable pub scan_replies :
    String → List ConversationEvent → List String × List String → List String × List String
scan_replies current_id [] s = s
scan_replies current_id (e ∷ es) s = scan_replies current_id es (
    if e.in_reply_to == current_id && not (contains e.event_id s.0)
    then (e.event_id ∷ s.0, e.event_id ∷ s.1)
    else s)

-- The second `while` of `load_thread`: the replies, and theirs.
unfoldable pub walk_down :
    List ConversationEvent → ℕ → List String → List String → Option (List String)
walk_down events zero related stack = none
walk_down events (suc fuel) related [] = some related
walk_down events (suc fuel) related (current_id ∷ stack) =
    let s = scan_replies current_id events (related, stack) in walk_down events fuel s.0 s.1

-- [by_id[eid] for eid in related]
unfoldable pub fetch_all : Dict ConversationEvent → List String → List ConversationEvent
fetch_all ids [] = []
fetch_all ids (i ∷ is) =
    let rest = fetch_all ids is in elim (Dict.get i ids) [ none ↦ rest | some e ↦ e ∷ rest ]

-- the ids that `load_thread` relates to the root, which is `start`
unfoldable pub related_ids :
    List ConversationEvent → ConversationEvent → String → Option (List String)
related_ids events start root =
    let fuel = suc (suc (length events)) in
    walk_up (by_id events) fuel start (root ∷ []) >>= λ up. walk_down events fuel up (root ∷ [])

unfoldable pub load_thread : ConversationLog → String → Option (List ConversationEvent)
unfolding related_ids
load_thread log root =
    let events = read_all log in
    elim (Dict.get root (by_id events)) [
      | none ↦ some []
      | some start ↦
          related_ids events start root >>= λ ids. some (by_time (fetch_all (by_id events) ids))
    ]

-- `_state_cache[peer_id] = entry` and `_save_state_file()`
abbrev pub store : Dict Entry → ConversationLog → ConversationLog
store cache log = record log { cache = cache; saved = some cache }

-- `state == ... and last_event_id == ...`
abbrev pub unchanged : Option Entry → ConvState → String → Bool
unchanged none state last = false
unchanged (some e) state last = same_conv_state e.state state && (e.last_event_id == last)

unfoldable pub set_conversation_state :
    String → String → ConvState → String → String → ConversationLog → ConversationLog
set_conversation_state now peer_id state last_event_id reason log =
    if unchanged (Dict.get peer_id log.cache) state last_event_id
    then log
    else store
        (Dict.put peer_id
          (record {
            peer_id = peer_id;
            state = state;
            last_event_id = last_event_id;
            reason = reason;
            updated_at = now;
          })
          log.cache)
        log

abbrev pub get_conversation_state : ConversationLog → String → Option Entry
get_conversation_state log peer_id = Dict.get peer_id log.cache

-- `state in (CONV_STATE_PAUSED, CONV_STATE_TIMEOUT_DISCONNECT)`
abbrev pub is_paused : ConvState → Bool
is_paused paused = true
is_paused timeout_disconnect = true
is_paused _ = false

-- d.values()
abbrev pub entries : Dict Entry → List Entry
entries [] = []
entries ((k, e) ∷ d) = e ∷ entries d

unfoldable pub list_paused_conversations : ConversationLog → List Entry
list_paused_conversations log =
    sort_by (λ (e : Entry). e.updated_at)
      (select (λ (e : Entry). is_paused e.state) (entries log.cache))

unfoldable pub list_active_conversations : ConversationLog → List Entry
list_active_conversations log =
    select (λ (e : Entry). same_conv_state e.state active) (entries log.cache)

unfoldable pub clear_conversation_state : String → ConversationLog → ConversationLog
clear_conversation_state peer_id log =
    if Dict.has peer_id log.cache then store (Dict.remove peer_id log.cache) log else log

-- `if not events: events = self.load_by_peer(peer_id)`
abbrev pub or_by_peer : ConversationLog → String → List ConversationEvent → List ConversationEvent
or_by_peer log peer_id [] = load_by_peer log peer_id none
or_by_peer log peer_id (e ∷ es) = e ∷ es

unfoldable pub context : ConversationLog → String → String → Option (List ConversationEvent)
context log peer_id last_event_id =
    if nonempty last_event_id
    then (load_thread log last_event_id >>= λ events. some (or_by_peer log peer_id events))
    else some (load_by_peer log peer_id none)

unfoldable pub resume_conversation :
    String → String → ConversationLog → Option (ConversationLog × List ConversationEvent)
resume_conversation now peer_id log = elim (Dict.get peer_id log.cache) [
  | none ↦ some (log, [])
  | some entry ↦
      if is_paused entry.state
      then (context log peer_id entry.last_event_id >>= λ events. some (
        set_conversation_state now peer_id resumed entry.last_event_id
            (str_append "resumed_from_" (conv_state_text entry.state)) log,
        events,
      ))
      else some (log, [])
]
