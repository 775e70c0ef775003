-- ===== src/AsyncComm/Peer/Offline.antt =====
-- A question to a peer that cannot be reached, with a shadow to answer it.
use team_harness.Prelude.{
  String, ◌≡◌, refl, sym, ap, ◌∙◌, true, false, some, is_some, [], ◌∷◌, Bool-cases, Option-cases,
  inl, inr, not, ◌||◌,
}
use team_harness.Prelude.Dict
use team_harness.Prelude.Result.{ok}
use team_harness.AsyncComm.Types.{
  ask, simulated_answer, paused, active, text, ConversationEvent, get_or,
}
use team_harness.AsyncComm.Mailbox.Transitions.{to_outbox, apply, run}
use team_harness.AsyncComm.Log.{append, exists, ConversationLog}
use team_harness.AsyncComm.Log.States.{HasState, set_conversation_state-HasState}
use team_harness.AsyncComm.Snapshot.{get_snapshot, is_stale, load_vector_clock}
use team_harness.AsyncComm.Peer.Types.{Shadow, Network, Peer, set_state, put_outbox, log_event}
use team_harness.AsyncComm.Peer.Shadow.{create_shadow_ask, no_snapshot, simulate, shadow_ask}
use team_harness.AsyncComm.Peer.Asks.{ask_shadow, offline_ask}

cache-append : (e : ConversationEvent) (log : ConversationLog) → (append e log).0.cache ≡ log.cache
unfolding append
cache-append e log = elim (Bool-cases (exists e.event_id log)) [
  | inl old ↦ rw old refl
  | inr new ↦ rw new refl
]

-- what the answer of a shadow to the ask event `x` is
abbrev pub IsSimulated : ConversationEvent → String → ConversationEvent → Type 0
IsSimulated x a e =
    (e.event_type ≡ simulated_answer)
    × (e.peer_id ≡ x.peer_id)
    × (e.degraded ≡ true)
    × (e.realtime ≡ false)
    × (Dict.get "answer" e.payload ≡ some (text a))
    × (e.in_reply_to ≡ x.event_id)

simulate-IsSimulated :
    (c : Network) (s : Shadow) (question a : String) (x : ConversationEvent) (p : Peer)
    → let snapshot = get_snapshot s.files p.snapshots x.peer_id in
      s.answer_generator question (get_or snapshot (no_snapshot x.peer_id)) ≡ ok a
      → let (q, r) = simulate c s x.peer_id question x p in
        (e : ConversationEvent) × (r ≡ ok e)
        × IsSimulated x a e
        × (e.snapshot_stale
            ≡ not (is_some snapshot)
              || is_stale s.files (c.seconds p.second_at) p.snapshots x.peer_id)
        × (q.world.mailbox ≡ p.world.mailbox)
        × (q.world.log ≡ (append e p.world.log).0)
unfolding simulate Dict.get
simulate-IsSimulated c s question a x p h =
    elim (Option-cases (get_snapshot s.files p.snapshots x.peer_id)) [
      | inl without ↦
          rw
            (
              without,
              ap (λ o. s.answer_generator question (get_or o (no_snapshot x.peer_id))) (sym without)
                  ∙ h,
            )
            (_, refl, (refl, refl, refl, refl, refl, refl), refl, refl, refl)
      | inr (snapshot, is) ↦
          rw
            (
              is,
              ap (λ o. s.answer_generator question (get_or o (no_snapshot x.peer_id))) (sym is) ∙ h,
            )
            (_, refl, (refl, refl, refl, refl, refl, refl), refl, refl, refl)
    ]

-- Where the shadow has an answer to a question to a peer that cannot be reached, the answer is a
-- degraded simulated one that replies to a second ask event of the shadow with the same question;
-- that event replies to the first one, both go into the outbox, and the conversation is paused at
-- the first.
pub offline_ask-IsSimulated :
    (c : Network) (s : Shadow) (asked : ConversationEvent) (question a : String) (p : Peer)
    → c.shadow ≡ some s
    → s.answer_generator question
        (get_or (get_snapshot s.files p.snapshots asked.peer_id) (no_snapshot asked.peer_id))
      ≡ ok a
    → let (q, r) = offline_ask c asked asked.peer_id question p in
      (x : ConversationEvent) × (e : ConversationEvent) × (r ≡ ok e)
      × IsSimulated x a e
      × (x.event_type ≡ ask)
      × (x.payload ≡ ("question", text question) ∷ [])
      × (x.in_reply_to ≡ asked.event_id)
      × (x.peer_id ≡ asked.peer_id)
      × HasState q.world.log asked.peer_id paused asked.event_id
      × (q.world.mailbox ≡ run (to_outbox asked ∷ to_outbox x ∷ []) p.world.mailbox)
unfolding offline_ask ask_shadow shadow_ask run apply
offline_ask-IsSimulated c s asked question a p with_shadow h =
    let i = asked.peer_id in
    let p1 = (set_state c i paused asked.event_id "peer_offline" (put_outbox asked p).0).0 in
    let x : ConversationEvent = record {
      event_id = c.uuids p.world.uuid_at;
      event_type = ask;
      peer_id = i;
      timestamp = c.short_times p1.world.time_at;
      vector_clock = load_vector_clock p.snapshots i;
      payload = ("question", text question) ∷ [];
      in_reply_to = asked.event_id;
      degraded = false;
      realtime = false;
      based_on = "";
      snapshot_stale = false;
      conversation_state = active;
    } in
    let p2 = (create_shadow_ask c s i question asked.event_id p1).0 in
    let p3 = (put_outbox x (log_event x p2).0).0 in
    let (e, at, simulated, stale, mailbox, log) = simulate-IsSimulated c s question a x p3 h in
    let caches =
      ap (λ (l : ConversationLog). l.cache) log
      ∙ cache-append e p3.world.log
      ∙ cache-append x p2.world.log in
    let (entry, stored, state, last) =
      (set_conversation_state-HasState (c.times p.world.time_at) i paused asked.event_id
        "peer_offline" p.world.log).0 in
    rw with_shadow (
      x,
      e,
      at,
      simulated,
      refl,
      refl,
      refl,
      refl,
      (entry, ap (Dict.get i) caches ∙ stored, state, last),
      mailbox,
    )
