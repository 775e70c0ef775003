-- ===== src/AsyncComm/Peer.antt =====
-- `PeerComm` of server/async_comm/peer_comm.py: a question goes to the peer where it can be reached,
-- and to its shadow where it cannot; a question to a tag goes to the first peer that answers a probe.
pub mod Types
pub mod Shadow
pub mod Asks
pub mod Keeps
pub mod Safety
pub mod Cache
pub mod Routes
pub mod Offline
pub mod Candidates
use Prim.Native.String.{◌++◌ as str_append}
use team_harness.Prelude.{
  ℕ, String, false, not, ◌&&◌, Option, none, some, List, [], ◌∷◌, map, select, contains, ◌==◌,
  nonempty, if◌then◌else◌,
}
use team_harness.Prelude.Dict
use team_harness.Prelude.Dict.{Dict}
use team_harness.Prelude.Result.{Result, ok, raise}
use team_harness.AsyncComm.Clock
use team_harness.AsyncComm.Types.{
  EventType, active, Value, text, counts, opaque_value, ConversationEvent, get_or,
}
use team_harness.AsyncComm.Log
use team_harness.AsyncComm.Sync.Types.{Message, SyncResult, or_else}
use team_harness.AsyncComm.Peer.Types.{
  ◌>>=◌, ◌>>◌, PeerInfo, Network, Peer, Step, give, log_event, put_outbox, fresh_uuid, utcnow,
  deliver_to, fetch_from, discover, called,
}
use team_harness.AsyncComm.Peer.Asks.{
  first_reply, answer_of, is_peer_reachable, build_message, create_ask_event, realtime_ask,
  offline_ask, targeted_ask, fallback_to_shadow,
}

-- [m.peer_id for m in members if tag in (m.capabilities or []) and m.peer_id]
abbrev pub with_tag : String → List PeerInfo → List String
with_tag tag peers =
    map (λ (p : PeerInfo). p.peer_id)
      (select (λ (p : PeerInfo). contains tag p.capabilities && nonempty p.peer_id) peers)

-- the loop that drops repeated candidates, empty ones and the member itself
unfoldable pub unique_candidates : String → List String → List String → List String
unique_candidates member_id seen [] = []
unique_candidates member_id seen (i ∷ is) =
    let keeps = nonempty i && (not (contains i seen) && not (i == member_id)) in
    let rest = unique_candidates member_id (if keeps then i ∷ seen else seen) is in
    if keeps then i ∷ rest else rest

-- `try: ... except Exception`
abbrev pub caught : {A : Type 0} → Peer × Result A → Peer × Result (Option A)
caught (p, ok a) = (p, ok (some a))
caught (p, raise e) = (p, ok none)

abbrev pub attempt : {A : Type 0} → Step A → Step (Option A)
attempt m p = caught (m p)

abbrev pub true_value : Value
true_value = opaque_value 1

module _ (c : Network) where
  -- `fetch_team_members`, if the transport has it; `none` if it raised
  abbrev pub team_members : Option (ℕ → Result (List PeerInfo)) → Step (Option (List PeerInfo))
  team_members none p = (p, ok none)
  team_members (some members) p = caught (called p, members p.calls)

  -- what is done with them: the peers are discovered where there are none
  unfoldable pub candidates_from : String → Option (List PeerInfo) → Step (List String)
  candidates_from tag (some members) = give (with_tag tag members)
  candidates_from tag none = do
    peers ← attempt (discover c)
    give (elim peers [ none ↦ [] | some ps ↦ with_tag tag ps ])

  -- _resolve_candidates_by_tag
  unfoldable pub resolve_candidates_by_tag : String → Step (List String)
  unfolding candidates_from
  resolve_candidates_by_tag tag =
      if nonempty tag
      then (do members ← team_members c.fetch_team_members; candidates_from tag members)
      else give []

  -- the fetch behind a probe that was sent
  unfoldable pub probe_response : String → String → Option SyncResult → Step (Option String)
  probe_response peer_id probe_id none = give none
  probe_response peer_id probe_id (some r) = do
    msgs ← attempt (fetch_from c peer_id)
    give (elim msgs [
      | none ↦ none
      | some ms ↦ elim (first_reply probe_id ms) [ none ↦ none | some m ↦ some (answer_of c m) ]
    ])

  -- `try` of a probe's delivery and of its fetch
  unfoldable pub send_probe : String → Message → String → Step (Option String)
  unfolding probe_response
  send_probe peer_id message probe_id = do
    sent ← attempt (deliver_to c peer_id (message ∷ []))
    probe_response peer_id probe_id sent

  -- the body of the loop of `_broadcast_probe`
  unfoldable pub probe_one : String → String → Step (Option String)
  unfolding is_peer_reachable build_message send_probe
  probe_one peer_id question = do
    is_reachable ← is_peer_reachable c peer_id
    if is_reachable
        then (do
          probe_id ← fresh_uuid c
          message ←
              build_message c peer_id "probe"
                (("question", text question) ∷ ("probe", true_value) ∷ []) probe_id ""
          send_probe peer_id message probe_id)
        else give none

  -- _broadcast_probe
  unfoldable pub broadcast_probe : List String → String → Dict String → Step (Dict String)
  unfolding probe_one
  broadcast_probe [] question responses = give responses
  broadcast_probe (i ∷ is) question responses = do
    response ← probe_one i question
    broadcast_probe is question
        (elim response [ none ↦ responses | some a ↦ Dict.put i a responses ])

  -- what follows the probes: the first responder is asked, or the shadow
  unfoldable pub ask_responder : String → String → String → Dict String → Step ConversationEvent
  unfolding targeted_ask fallback_to_shadow
  ask_responder fallback question in_reply_to [] =
      fallback_to_shadow c fallback question in_reply_to "no_probe_response"
  ask_responder fallback question in_reply_to ((i, a) ∷ responses) =
      targeted_ask c i question in_reply_to

  unfoldable pub ask_candidates : String → String → String → List String → Step ConversationEvent
  unfolding broadcast_probe ask_responder fallback_to_shadow
  ask_candidates fallback question in_reply_to [] =
      fallback_to_shadow c fallback question in_reply_to "no_tag_candidate"
  ask_candidates fallback question in_reply_to (i ∷ is) = do
    responses ← broadcast_probe (i ∷ is) question []
    ask_responder fallback question in_reply_to responses

  -- _ask_by_tag
  unfoldable pub ask_by_tag : String → String → String → String → Step ConversationEvent
  unfolding resolve_candidates_by_tag ask_candidates
  ask_by_tag tag question fallback_peer_id in_reply_to = do
    candidates ← resolve_candidates_by_tag tag
    ask_candidates (or_else fallback_peer_id (str_append "tag:" tag)) question in_reply_to
        (unique_candidates c.member_id [] candidates)

  -- the part of `ask_peer` behind the ask event
  unfoldable pub ask_route : ConversationEvent → String → String → String → Step ConversationEvent
  unfolding is_peer_reachable realtime_ask offline_ask
  ask_route asked peer_id question in_reply_to = do
    is_reachable ← is_peer_reachable c peer_id
    if is_reachable
        then realtime_ask c asked peer_id question in_reply_to
        else offline_ask c asked peer_id question

  unfoldable pub ask_peer : String → String → String → String → Step ConversationEvent
  unfolding ask_by_tag create_ask_event ask_route
  ask_peer peer_id question in_reply_to tag =
      if nonempty tag then ask_by_tag tag question peer_id in_reply_to else do
        asked ← create_ask_event c peer_id question in_reply_to []
        log_event asked
        ask_route asked peer_id question in_reply_to

  -- the part of `share_asset` for a peer that cannot be reached
  unfoldable pub share_later : String → String → Dict Value → Step SyncResult
  share_later event_id to_peer_id payload p =
      let write : Step SyncResult = do
        timestamp ← utcnow c
        put_outbox (record {
          event_id = event_id;
          event_type = EventType.other "share_asset";
          peer_id = to_peer_id;
          timestamp = timestamp;
          vector_clock = Clock.from_dict (Clock.to_dict p.local_clock);
          payload = payload;
          in_reply_to = "";
          degraded = false;
          realtime = false;
          based_on = "";
          snapshot_stale = false;
          conversation_state = active;
        })
        give (record {
          success = false;
          delivered_count = 0;
          failed_count = 0;
          pending_count = 1;
          error = "";
          delivered_message_ids = [];
        })
      in write p

  unfoldable pub share_asset : String → String → Option Value → Step SyncResult
  unfolding build_message is_peer_reachable share_later
  share_asset asset_id to_peer_id asset_content = do
    event_id ← fresh_uuid c
    let payload : Dict Value =
        ("asset_id", text asset_id) ∷ ("content", get_or asset_content (counts [])) ∷ []
    message ← build_message c to_peer_id "share_asset" payload event_id ""
    is_reachable ← is_peer_reachable c to_peer_id
    if is_reachable
        then deliver_to c to_peer_id (message ∷ [])
        else share_later event_id to_peer_id payload

  unfoldable pub list_peers : Step (List String)
  list_peers = do peers ← discover c; give (map (λ (p : PeerInfo). p.peer_id) peers)
