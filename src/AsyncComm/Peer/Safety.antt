-- ===== src/AsyncComm/Peer/Safety.antt =====
-- Every method of `PeerComm` touches the mailbox and the log through their operations alone, so
-- that it keeps what they keep, whatever the network and the shadow do.
use Prim.Native.String.{◌++◌ as str_append}
use team_harness.Prelude.{
  ℕ, String, ◌≡◌, refl, sym, ap, ◌∙◌, subst, Bool, true, false, Option, none, some, List, [], ◌∷◌,
  ◌++◌, append-nil, nonempty, Distinct, Option-cases, inl, inr, if◌then◌else◌,
}
use team_harness.Prelude.Dict.{Dict}
use team_harness.Prelude.Dict
use team_harness.Prelude.Result.{Result, ok, raise}
use team_harness.AsyncComm.Types.{
  counts, get_or, paused, text, Value, Status, Line, ConversationEvent,
}
use team_harness.AsyncComm.Lines.{file_ids}
use team_harness.AsyncComm.Mailbox.{get_status}
use team_harness.AsyncComm.Mailbox.Transitions.{to_outbox, apply, run, run-Progress, Progress}
use team_harness.AsyncComm.Mailbox.Invariant.{IsConsistent, run-IsConsistent}
use team_harness.AsyncComm.Sync.Types.{Message, SyncResult, World, or_else}
use team_harness.AsyncComm.Peer.Types.{
  PeerInfo, Network, Peer, Step, fail, time_now, probe_peer, discover, called,
}
use team_harness.AsyncComm.Peer.Keeps.{
  Reached, Keeps, still, then_, give-Keeps, log_event-Keeps, put_outbox-Keeps, set_state-Keeps,
  fresh_uuid-Keeps, deliver_to-Keeps, fetch_from-Keeps, build_message-Keeps, create_ask_event-Keeps,
  create_answer_event-Keeps, realtime_ask-Keeps, shadow_ask-Keeps,
}
use team_harness.AsyncComm.Peer.Asks.{
  still_valid, pending, probe_and_cache, reachable_at, cached_or_probed, is_peer_reachable,
  ask_shadow, offline_ask, targeted_ask, pending_answer, fallback_to_shadow,
}
use team_harness.AsyncComm.Peer.{
  team_members, resolve_candidates_by_tag, unique_candidates, with_tag, attempt, caught, send_probe,
  probe_one, broadcast_probe, ask_responder, ask_candidates, ask_by_tag, ask_route, ask_peer,
  share_later, share_asset, probe_response, candidates_from, true_value,
}

module _ (c : Network) where
  ask_shadow-Keeps :
      (missing_ : Step ConversationEvent) (i question reply : String)
      → Keeps missing_
      → Keeps (ask_shadow c missing_ i question reply)
  unfolding ask_shadow
  ask_shadow-Keeps missing_ i question reply h = elim (Option-cases c.shadow) [
    | inl without ↦ rw without h
    | inr (s, is) ↦ rw is (shadow_ask-Keeps c s i question reply)
  ]

  offline_ask-Keeps :
      (e : ConversationEvent) (i question : String) → Keeps (offline_ask c e i question)
  unfolding offline_ask
  offline_ask-Keeps e i question = then_ (put_outbox-Keeps e) (λ _.
      then_ (set_state-Keeps c i paused e.event_id "peer_offline") (λ _.
        ask_shadow-Keeps (fail "shadow_comm not configured for offline communication") i question
          e.event_id (still (λ p. refl))))

  targeted_ask-Keeps : (i question reply : String) → Keeps (targeted_ask c i question reply)
  unfolding targeted_ask
  targeted_ask-Keeps i question reply =
      then_ (create_ask_event-Keeps c i question reply [])
        (λ e. then_ (log_event-Keeps e) (λ _. realtime_ask-Keeps c e i question reply))

  pending_answer-Keeps : (i asked reason : String) → Keeps (pending_answer c i asked reason)
  unfolding pending_answer
  pending_answer-Keeps i asked reason =
      then_ (create_answer_event-Keeps c i "" asked (pending ++ ("tag_routing", text reason) ∷ []))
        (λ e. then_ (log_event-Keeps e) (λ _. give-Keeps e))

  fallback_to_shadow-Keeps :
      (i question reply reason : String) → Keeps (fallback_to_shadow c i question reply reason)
  unfolding fallback_to_shadow
  fallback_to_shadow-Keeps i question reply reason =
      then_ (create_ask_event-Keeps c i question reply (("tag_routing", text reason) ∷ [])) (λ e.
        then_ (log_event-Keeps e) (λ _. then_ (put_outbox-Keeps e) (λ _.
          ask_shadow-Keeps (pending_answer c i e.event_id reason) i question e.event_id
            (pending_answer-Keeps i e.event_id reason))))

  cached_or_probed-Keeps :
      (i : String) (now : ℕ) (o : Option Bool) → Keeps (cached_or_probed c i now o)
  unfolding cached_or_probed probe_and_cache
  cached_or_probed-Keeps i now (some b) = give-Keeps b
  cached_or_probed-Keeps i now none =
      then_ {m = probe_peer c i} (still (λ q. refl)) (λ b. still (λ q. refl))

  reachable_at-Keeps : (i : String) (now : ℕ) → Keeps (reachable_at c i now)
  unfolding reachable_at
  reachable_at-Keeps i now = record {
    keeps = λ p.
        (cached_or_probed-Keeps i now
            (still_valid c.network_check_interval now (Dict.get i p.reachability))).keeps
          p;
  }

  is_peer_reachable-Keeps : (i : String) → Keeps (is_peer_reachable c i)
  unfolding is_peer_reachable
  is_peer_reachable-Keeps i =
      then_ {m = time_now c} (still (λ p. refl)) (λ now. reachable_at-Keeps i now)

  if-Keeps : {A : Type 0} (b : Bool) {m n : Step A} → Keeps m → Keeps n → Keeps (if b then m else n)
  if-Keeps true h k = h
  if-Keeps false h k = k

  attempt-Keeps : {A : Type 0} {m : Step A} → Keeps m → Keeps (attempt m)
  attempt-Keeps {m = m} h = record { keeps = λ p. caught-Reached p.world (m p) (h.keeps p) }
    where
      caught-Reached :
          {A : Type 0} (v : World) (r : Peer × Result A)
          → Reached v r.0.world
          → Reached v (caught r).0.world
      caught-Reached v (q, ok a) h = h
      caught-Reached v (q, raise e) h = h

  probe_response-Keeps :
      (i probe_id : String) (r : Option SyncResult) → Keeps (probe_response c i probe_id r)
  unfolding probe_response
  probe_response-Keeps i probe_id none = give-Keeps none
  probe_response-Keeps i probe_id (some r) =
      then_ (attempt-Keeps (fetch_from-Keeps c i)) (λ msgs. still (λ p. refl))

  send_probe-Keeps :
      (i : String) (m : Message) (probe_id : String) → Keeps (send_probe c i m probe_id)
  unfolding send_probe
  send_probe-Keeps i m probe_id =
      then_ (attempt-Keeps (deliver_to-Keeps c i (m ∷ []))) (probe_response-Keeps i probe_id)

  probe_one-Keeps : (i question : String) → Keeps (probe_one c i question)
  unfolding probe_one
  probe_one-Keeps i question = then_ (is_peer_reachable-Keeps i) (λ b.
      if-Keeps b
        (then_ (fresh_uuid-Keeps c) (λ probe_id.
          then_
            (build_message-Keeps c i "probe"
              (("question", text question) ∷ ("probe", true_value) ∷ []) probe_id "")
            (λ m. send_probe-Keeps i m probe_id)))
        (give-Keeps none))

  broadcast_probe-Keeps :
      (is : List String) (question : String) (responses : Dict String)
      → Keeps (broadcast_probe c is question responses)
  unfolding broadcast_probe
  broadcast_probe-Keeps [] question responses = give-Keeps responses
  broadcast_probe-Keeps (i ∷ is) question responses =
      then_ (probe_one-Keeps i question) (λ a. broadcast_probe-Keeps is question _)

  ask_responder-Keeps :
      (fallback question reply : String) (responses : Dict String)
      → Keeps (ask_responder c fallback question reply responses)
  unfolding ask_responder
  ask_responder-Keeps fallback question reply [] =
      fallback_to_shadow-Keeps fallback question reply "no_probe_response"
  ask_responder-Keeps fallback question reply ((i, a) ∷ rs) = targeted_ask-Keeps i question reply

  ask_candidates-Keeps :
      (fallback question reply : String) (is : List String)
      → Keeps (ask_candidates c fallback question reply is)
  unfolding ask_candidates
  ask_candidates-Keeps fallback question reply [] =
      fallback_to_shadow-Keeps fallback question reply "no_tag_candidate"
  ask_candidates-Keeps fallback question reply (i ∷ is) =
      then_ (broadcast_probe-Keeps (i ∷ is) question [])
        (λ rs. ask_responder-Keeps fallback question reply rs)

  team_members-Keeps :
      (members : Option (ℕ → Result (List PeerInfo))) → Keeps (team_members c members)
  team_members-Keeps none = give-Keeps none
  team_members-Keeps (some members) =
      attempt-Keeps {m = λ p. (called p, members p.calls)} (still (λ p. refl))

  candidates_from-Keeps :
      (tag : String) (members : Option (List PeerInfo)) → Keeps (candidates_from c tag members)
  unfolding candidates_from
  candidates_from-Keeps tag (some members) = give-Keeps (with_tag tag members)
  candidates_from-Keeps tag none =
      then_ (attempt-Keeps {m = discover c} (still (λ p. refl))) (λ ps. still (λ p. refl))

  resolve_candidates_by_tag-Keeps : (tag : String) → Keeps (resolve_candidates_by_tag c tag)
  unfolding resolve_candidates_by_tag
  resolve_candidates_by_tag-Keeps tag =
      if-Keeps (nonempty tag)
        (then_ (team_members-Keeps c.fetch_team_members) (candidates_from-Keeps tag))
        (give-Keeps [])

  ask_peer-Keeps : (i question reply tag : String) → Keeps (ask_peer c i question reply tag)
  unfolding ask_peer ask_by_tag ask_route
  ask_peer-Keeps i question reply tag =
      if-Keeps (nonempty tag)
        (then_ (resolve_candidates_by_tag-Keeps tag) (λ is.
          ask_candidates-Keeps (or_else i (str_append "tag:" tag)) question reply
            (unique_candidates c.member_id [] is)))
        (then_ (create_ask_event-Keeps c i question reply []) (λ e. then_ (log_event-Keeps e) (λ _.
          then_ (is_peer_reachable-Keeps i) (λ b.
            if-Keeps b (realtime_ask-Keeps c e i question reply)
              (offline_ask-Keeps e i question)))))

  share_later-Keeps : (e to : String) (payload : Dict Value) → Keeps (share_later c e to payload)
  unfolding share_later run apply
  share_later-Keeps e to payload = record {
    keeps = λ p. ((to_outbox _ ∷ [], refl), ([], sym (append-nil p.world.log.lines)), λ d. d);
  }

  share_asset-Keeps :
      (asset to : String) (content : Option Value) → Keeps (share_asset c asset to content)
  unfolding share_asset
  share_asset-Keeps asset to content =
      let payload : Dict Value =
        ("asset_id", text asset) ∷ ("content", get_or content (counts [])) ∷ [] in
      then_ (fresh_uuid-Keeps c) (λ e.
        then_ (build_message-Keeps c to "share_asset" payload e "") (λ m.
          then_ (is_peer_reachable-Keeps to)
            (λ b. if-Keeps b (deliver_to-Keeps c to (m ∷ [])) (share_later-Keeps e to payload))))

  -- A question by `ask_peer`, to a peer or to a tag, keeps the mailbox consistent and the ids of
  -- the log distinct, only adds lines to the log, and takes the status of a known message at most
  -- one step of the flow further, whatever the network and the shadow answer or raise.
  pub ask_peer-IsConsistent :
      (i question reply tag : String) (p : Peer)
      → IsConsistent p.world.mailbox
      → Distinct (file_ids p.world.log.lines)
      → let w = (ask_peer c i question reply tag p).0.world in
        IsConsistent w.mailbox
        × Distinct (file_ids w.log.lines)
        × ((ls : List Line) × (w.log.lines ≡ p.world.log.lines ++ ls))
        × ((e : String) (s : Status)
            → get_status p.world.mailbox e ≡ some s
            → (t : Status) × (get_status w.mailbox e ≡ some t) × Progress s t)
  ask_peer-IsConsistent i question reply tag p h d =
      let ((ops, is), more, keeps) = (ask_peer-Keeps i question reply tag).keeps p in
      (
        subst IsConsistent (sym is) (run-IsConsistent ops p.world.mailbox h),
        keeps d,
        more,
        λ e s at.
            let (t, now, step) = run-Progress ops e s p.world.mailbox at in
            (t, ap (λ mb. get_status mb e) is ∙ now, step),
      )
