-- ===== src/AsyncComm/Peer/Keeps.antt =====
-- Every method of `PeerComm` touches the mailbox and the log through their operations alone, so
-- that it keeps what they keep, whatever the network and the shadow do.
use team_harness.Prelude.{
  String, ◌≡◌, refl, sym, ap, ◌∙◌, subst, Bool, true, false, Option, none, some, List, [], ◌∷◌,
  ◌++◌, append-nil, append_assoc, Distinct, Bool-cases, inl, inr,
}
use team_harness.Prelude.Dict.{Dict}
use team_harness.Prelude.Result.{Result, ok, raise}
use team_harness.AsyncComm.Types.{
  ask, realtime_answer, EventType, counts, get_or, active, text, Value, ConvState, Line, json,
  ConversationEvent,
}
use team_harness.AsyncComm.Lines.{file_ids}
use team_harness.AsyncComm.Mailbox.Transitions.{run-append, Op, to_outbox, apply, run}
use team_harness.AsyncComm.Log.{
  ConversationLog, append, exists, event_to_dict, set_conversation_state,
}
use team_harness.AsyncComm.Log.States.{set_conversation_state-HasState}
use team_harness.AsyncComm.Log.Queries.{append-Distinct}
use team_harness.AsyncComm.Clock.{VectorClock}
use team_harness.AsyncComm.Clock
use team_harness.AsyncComm.Snapshot.{
  PeerSnapshot, get_snapshot, get_snapshot_version, load_vector_clock,
}
use team_harness.AsyncComm.Sync.Types.{Message, World}
use team_harness.AsyncComm.Peer.Types.{
  Shadow, Network, Peer, Step, resume, ◌>>=◌, give, log_event, put_outbox, fresh_uuid, utcnow,
  utcnow_short, deliver_to, fetch_from, set_state,
}
use team_harness.AsyncComm.Peer.Shadow.{
  no_snapshot, warning_for, if_some, create_shadow_ask, create_simulated_answer, stale_now,
  generate, simulate, shadow_ask,
}
use team_harness.AsyncComm.Peer.Asks.{
  first_reply, pending, answer_of, build_message, new_event, ticked, create_ask_event,
  create_answer_event, answer_or_pending, realtime_ask,
}

-- `w` comes from `v` by operations of the mailbox and by lines that are added to the log; no id
-- becomes repeated in the log
abbrev pub Reached : World → World → Type 0
Reached v w =
    ((ops : List Op) × (w.mailbox ≡ run ops v.mailbox))
    × ((ls : List Line) × (w.log.lines ≡ v.log.lines ++ ls))
    × (Distinct (file_ids v.log.lines) → Distinct (file_ids w.log.lines))

pub Reached-refl : (w : World) → Reached w w
unfolding run
Reached-refl w = (([], refl), ([], sym (append-nil w.log.lines)), λ d. d)

pub Reached-trans : (u v w : World) → Reached u v → Reached v w → Reached u w
Reached-trans u v w ((ops, p), (ls, q), f) ((more, r), (ms, s), g) = (
  (ops ++ more, r ∙ ap (run more) p ∙ sym (run-append ops more u.mailbox)),
  (ls ++ ms, s ∙ ap (λ l. l ++ ms) q ∙ append_assoc u.log.lines ls ms),
  λ d. g (f d),
)

-- The step keeps what the mailbox and the log keep.
pub record Keeps {A : Type 0} (m : Step A) : Type 0 where
  pub keeps : (p : Peer) → Reached p.world (m p).0.world

pub still : {A : Type 0} {m : Step A} → ((p : Peer) → (m p).0.world ≡ p.world) → Keeps m
still same = record { keeps = λ p. subst (Reached p.world) (sym (same p)) (Reached-refl p.world) }

pub resume-Reached :
    {A B : Type 0} (v : World) (r : Peer × Result A) (f : A → Step B)
    → Reached v r.0.world
    → ((a : A) → Keeps (f a))
    → Reached v (resume r f).0.world
resume-Reached v (p, ok a) f h k = Reached-trans v p.world (f a p).0.world h ((k a).keeps p)
resume-Reached v (p, raise e) f h k = h

pub then_ :
    {A B : Type 0} {m : Step A} {f : A → Step B}
    → Keeps m
    → ((a : A) → Keeps (f a))
    → Keeps (m >>= f)
then_ {m = m} {f = f} h k = record { keeps = λ p. resume-Reached p.world (m p) f (h.keeps p) k }

pub give-Keeps : {A : Type 0} (a : A) → Keeps (give a)
give-Keeps a = still (λ p. refl)

append-lines :
    (e : ConversationEvent) (log : ConversationLog)
    → (ls : List Line) × ((append e log).0.lines ≡ log.lines ++ ls)
unfolding append
append-lines e log = elim (Bool-cases (exists e.event_id log)) [
  | inl old ↦ ([], rw old (sym (append-nil log.lines)))
  | inr new ↦ (json (event_to_dict e) ∷ [], rw new refl)
]

pub log_event-Keeps : (e : ConversationEvent) → Keeps (log_event e)
unfolding run
log_event-Keeps e = record {
  keeps = λ p. (([], refl), append-lines e p.world.log, append-Distinct e p.world.log);
}

pub put_outbox-Keeps : (e : ConversationEvent) → Keeps (put_outbox e)
unfolding run apply
put_outbox-Keeps e = record {
  keeps = λ p. ((to_outbox e ∷ [], refl), ([], sym (append-nil p.world.log.lines)), λ d. d);
}

lines-set_conversation_state :
    (now p : String) (state : ConvState) (last reason : String) (log : ConversationLog)
    → (set_conversation_state now p state last reason log).lines ≡ log.lines
lines-set_conversation_state now p state last reason log =
    (set_conversation_state-HasState now p state last reason log).2

pub set_state-Keeps :
    (c : Network) (i : String) (state : ConvState) (last reason : String)
    → Keeps (set_state c i state last reason)
unfolding run
set_state-Keeps c i state last reason = record {
  keeps = λ p.
      let same =
        lines-set_conversation_state (c.times p.world.time_at) i state last reason p.world.log in
      (
        ([], refl),
        ([], same ∙ sym (append-nil p.world.log.lines)),
        λ d. subst (λ ls. Distinct (file_ids ls)) (sym same) d,
      );
}

module _ (c : Network) where
  pub fresh_uuid-Keeps : Keeps (fresh_uuid c)
  unfolding run
  fresh_uuid-Keeps = record { keeps = λ p. Reached-refl p.world }

  pub utcnow-Keeps : Keeps (utcnow c)
  unfolding run
  utcnow-Keeps = record { keeps = λ p. Reached-refl p.world }

  pub utcnow_short-Keeps : Keeps (utcnow_short c)
  unfolding run
  utcnow_short-Keeps = record { keeps = λ p. Reached-refl p.world }

  pub deliver_to-Keeps : (i : String) (ms : List Message) → Keeps (deliver_to c i ms)
  deliver_to-Keeps i ms = still (λ p. refl)

  pub fetch_from-Keeps : (i : String) → Keeps (fetch_from c i)
  fetch_from-Keeps i = still (λ p. refl)

  pub build_message-Keeps :
      (i t : String) (payload : Dict Value) (event_id reply : String)
      → Keeps (build_message c i t payload event_id reply)
  unfolding build_message run
  build_message-Keeps i t payload event_id reply = record { keeps = λ p. Reached-refl p.world }

  pub new_event-Keeps :
      (t : EventType) (i : String) (payload : Dict Value) (reply : String) (realtime : Bool)
      (vc : VectorClock)
      → Keeps (new_event c t i payload reply realtime vc)
  unfolding new_event run
  new_event-Keeps t i payload reply realtime vc = record { keeps = λ p. Reached-refl p.world }

  pub create_ask_event-Keeps :
      (i question reply : String) (routing : Dict Value)
      → Keeps (create_ask_event c i question reply routing)
  unfolding create_ask_event
  create_ask_event-Keeps i question reply routing = record {
    keeps = λ p.
        (new_event-Keeps ask i (("question", text question) ∷ routing) reply false
            (ticked c p).local_clock).keeps
          (ticked c p);
  }

  pub create_answer_event-Keeps :
      (i a reply : String) (marks : Dict Value) → Keeps (create_answer_event c i a reply marks)
  unfolding create_answer_event
  create_answer_event-Keeps i a reply marks = record {
    keeps = λ p.
        (new_event-Keeps realtime_answer i (("answer", text a) ∷ marks) reply true
            p.local_clock).keeps
          p;
  }

  pub answer_or_pending-Keeps :
      (i asked : String) (m : Option Message) → Keeps (answer_or_pending c i asked m)
  unfolding answer_or_pending
  answer_or_pending-Keeps i asked none = create_answer_event-Keeps i "" asked pending
  answer_or_pending-Keeps i asked (some m) = create_answer_event-Keeps i (answer_of c m) asked []

  pub realtime_ask-Keeps :
      (e : ConversationEvent) (i question reply : String)
      → Keeps (realtime_ask c e i question reply)
  unfolding realtime_ask
  realtime_ask-Keeps e i question reply =
      then_
        (build_message-Keeps i "ask"
          (("question", text question)
            ∷ ("vector_clock", counts (Clock.to_dict e.vector_clock))
            ∷ [])
          e.event_id reply)
        (λ m. then_ (deliver_to-Keeps i (m ∷ [])) (λ sent. then_ (fetch_from-Keeps i) (λ ms.
          then_ (answer_or_pending-Keeps i e.event_id (first_reply e.event_id ms)) (λ a.
            then_ (log_event-Keeps a) (λ _.
              then_ (set_state-Keeps c i active a.event_id "realtime_active")
                (λ _. give-Keeps a))))))

  pub create_shadow_ask-Keeps :
      (s : Shadow) (i question reply : String) → Keeps (create_shadow_ask c s i question reply)
  unfolding run
  create_shadow_ask-Keeps s i question reply = record { keeps = λ p. Reached-refl p.world }

  pub stale_now-Keeps :
      (s : Shadow) (i : String) (snapshot : Option PeerSnapshot) → Keeps (stale_now c s i snapshot)
  stale_now-Keeps s i none = give-Keeps true
  stale_now-Keeps s i (some snapshot) = still (λ p. refl)

  pub generate-Keeps :
      (s : Shadow) (question : String) (snapshot : PeerSnapshot)
      → Keeps (generate c s question snapshot)
  generate-Keeps s question snapshot = still (λ p. refl)

  pub create_simulated_answer-Keeps :
      (s : Shadow) (i answer reply version : String) (stale : Bool) (vc : VectorClock)
      (warning : Dict Value)
      → Keeps (create_simulated_answer c s i answer reply version stale vc warning)
  unfolding run
  create_simulated_answer-Keeps s i answer reply version stale vc warning = record {
    keeps = λ p. Reached-refl p.world;
  }

  pub simulate-Keeps :
      (s : Shadow) (i question : String) (e : ConversationEvent) → Keeps (simulate c s i question e)
  unfolding simulate
  simulate-Keeps s i question e = record {
    keeps = λ p.
        let snapshot = get_snapshot s.files p.snapshots i in
        (then_ (stale_now-Keeps s i snapshot) (λ stale.
            then_ (generate-Keeps s question (get_or snapshot (no_snapshot i))) (λ answer.
              then_
                (create_simulated_answer-Keeps s i answer e.event_id
                  (if_some snapshot (get_snapshot_version s.files p.snapshots i)) stale
                  (load_vector_clock p.snapshots i) (warning_for snapshot))
                (λ a. then_ (log_event-Keeps a) (λ _. give-Keeps a))))).keeps
          p;
  }

  pub shadow_ask-Keeps :
      (s : Shadow) (i question reply : String) → Keeps (shadow_ask c s i question reply)
  unfolding shadow_ask
  shadow_ask-Keeps s i question reply = then_ (create_shadow_ask-Keeps s i question reply) (λ e.
      then_ (log_event-Keeps e)
        (λ _. then_ (put_outbox-Keeps e) (λ _. simulate-Keeps s i question e)))
