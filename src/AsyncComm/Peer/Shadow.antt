-- ===== src/AsyncComm/Peer/Shadow.antt =====
-- `ShadowComm` of server/async_comm/shadow_comm.py.
use Prim.Native.String.{◌++◌ as str_append}
use team_harness.Prelude.{String, Bool, true, false, Option, none, some, [], ◌∷◌}
use team_harness.Prelude.Dict.{Dict}
use team_harness.Prelude.Result.{Result, ok}
use team_harness.AsyncComm.Clock.{VectorClock, new_clock}
use team_harness.AsyncComm.Types.{
  ask, simulated_answer, active, Value, text, ConversationEvent, get_or,
}
use team_harness.AsyncComm.Snapshot.{
  PeerSnapshot, get_snapshot, get_snapshot_version, is_stale, load_vector_clock,
}
use team_harness.AsyncComm.Peer.Types.{
  Shadow, Network, Step, ◌>>=◌, ◌>>◌, give, log_event, put_outbox, fresh_uuid, utcnow_short,
  time_now,
}

-- default_answer_generator
unfoldable pub default_answer_generator : String → PeerSnapshot → Result String
default_answer_generator question snapshot = ok (
    str_append "[影子联络模拟回答] 基于快照 " (
      str_append snapshot.snapshot_version (
        str_append " 生成。"
          (str_append "问题：" (str_append question (str_append "。" "注意：未配置实际 AI 生成器，此为占位回答。"))))))

-- PeerSnapshot(peer_id=peer_id, snapshot_version="")
abbrev pub no_snapshot : String → PeerSnapshot
no_snapshot peer_id = record {
  peer_id = peer_id;
  snapshot_version = "";
  captured_at = "";
  vector_clock = new_clock;
}

-- what the absence of a snapshot changes: the warning, and the version
abbrev pub warning_for : Option PeerSnapshot → Dict Value
warning_for none = ("warning", text "no local snapshot available for peer") ∷ []
warning_for (some snapshot) = []

abbrev pub if_some : Option PeerSnapshot → String → String
if_some none version = ""
if_some (some snapshot) version = version

module _ (c : Network) (s : Shadow) where
  -- _create_ask_event
  abbrev pub create_shadow_ask : String → String → String → Step ConversationEvent
  create_shadow_ask peer_id question in_reply_to p =
      let build : Step ConversationEvent = do
        event_id ← fresh_uuid c
        timestamp ← utcnow_short c
        give (record {
          event_id = event_id;
          event_type = ask;
          peer_id = peer_id;
          timestamp = timestamp;
          vector_clock = load_vector_clock p.snapshots peer_id;
          payload = ("question", text question) ∷ [];
          in_reply_to = in_reply_to;
          degraded = false;
          realtime = false;
          based_on = "";
          snapshot_stale = false;
          conversation_state = active;
        })
      in build p

  -- _create_simulated_answer_event, with the warning of `ask_peer`
  abbrev pub create_simulated_answer :
      String → String → String → String → Bool → VectorClock → Dict Value → Step ConversationEvent
  create_simulated_answer peer_id answer in_reply_to version stale vector_clock warning = do
    event_id ← fresh_uuid c
    timestamp ← utcnow_short c
    give (record {
      event_id = event_id;
      event_type = simulated_answer;
      peer_id = peer_id;
      timestamp = timestamp;
      vector_clock = vector_clock;
      payload = ("answer", text answer) ∷ warning;
      in_reply_to = in_reply_to;
      degraded = true;
      realtime = false;
      based_on = version;
      snapshot_stale = stale;
      conversation_state = active;
    })

  -- `is_stale` where there is a snapshot; it reads the clock
  abbrev pub stale_now : String → Option PeerSnapshot → Step Bool
  stale_now peer_id none = give true
  stale_now peer_id (some snapshot) = do
    now ← time_now c
    λ p. (p, ok (is_stale s.files now p.snapshots peer_id))

  abbrev pub generate : String → PeerSnapshot → Step String
  generate question snapshot p = (p, s.answer_generator question snapshot)

  -- the part of `ask_peer` behind the ask event
  unfoldable pub simulate : String → String → ConversationEvent → Step ConversationEvent
  simulate peer_id question asked p =
      let snapshot = get_snapshot s.files p.snapshots peer_id in
      let answered : Step ConversationEvent = do
        stale ← stale_now peer_id snapshot
        answer ← generate question (get_or snapshot (no_snapshot peer_id))
        e ←
            create_simulated_answer peer_id answer asked.event_id
              (if_some snapshot (get_snapshot_version s.files p.snapshots peer_id)) stale
              (load_vector_clock p.snapshots peer_id) (warning_for snapshot)
        log_event e
        give e
      in answered p

  unfoldable pub shadow_ask : String → String → String → Step ConversationEvent
  unfolding simulate
  shadow_ask peer_id question in_reply_to = do
    e ← create_shadow_ask peer_id question in_reply_to
    log_event e
    put_outbox e
    simulate peer_id question e
