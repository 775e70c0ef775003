-- ===== src/AsyncComm/LogExamples.antt =====
-- Runs of the log, of the resolver and of a sync, on the exchange of `Examples`.
use team_harness.Prelude.{
  String, ◌≡◌, ◌⊎◌, refl, true, none, some, List, [], ◌∷◌, length, select, Distinct,
}
use team_harness.Prelude.Dict
use team_harness.Prelude.Sort.{IsSorted}
use team_harness.Prelude.Result.{ok}
use team_harness.AsyncComm.Types.{
  realtime_answer, simulated_answer, Status, paused, ConversationEvent,
}
use team_harness.AsyncComm.Lines.{file_ids}
use team_harness.AsyncComm.Mailbox
use team_harness.AsyncComm.Mailbox.{Mailbox, get_status}
use team_harness.AsyncComm.Mailbox.Transitions.{to_outbox, run, apply, Progress}
use team_harness.AsyncComm.Mailbox.Invariant.{
  IsConsistent, run-IsConsistent, open_mailbox-IsConsistent,
}
use team_harness.AsyncComm.Log.{
  ConversationLog, open_log, read_all, load_by_peer, by_id, load_thread, set_conversation_state,
}
use team_harness.AsyncComm.Log.Queries.{append_all, append_all-Distinct}
use team_harness.AsyncComm.Log.Thread.{In, Descends, Above}
use team_harness.AsyncComm.Log.Thread.Complete.{Related, load_thread-Related}
use team_harness.AsyncComm.Resolver.{revised, Ratio, Strings, default_similarity, ConflictResolver}
use team_harness.AsyncComm.Sync.{push_outbox, pull_inbox, of_type, reconcile, sync_with_peer}
use team_harness.AsyncComm.Sync.Types.{Message, World, Context}
use team_harness.AsyncComm.Sync.Events.{build_messages}
use team_harness.AsyncComm.Sync.Push.{targets, Pushed, push_outbox-Pushed}
use team_harness.AsyncComm.Sync.Pull.{pull_inbox_twice}
use team_harness.AsyncComm.Sync.Safety.{sync_with_peer-IsConsistent}
use team_harness.AsyncComm.Sync.Reconcile.{count, is_judged, decides, reconcile-counts}
use team_harness.AsyncComm.Examples.{question, guess, answer, empty_box, sent}

abbrev empty_log : ConversationLog
empty_log = open_log [] none

abbrev talk : List ConversationEvent
talk = question ∷ guess ∷ answer ∷ []

abbrev log : ConversationLog
log = append_all talk empty_log

load_thread-Related_example :
    ((Dict.get "q1" (by_id (read_all log)) ≡ none) × (load_thread log "q1" ≡ some []))
    ⊎ ((start : ConversationEvent) × (thread : List ConversationEvent) × (Dict.get "q1"
            (by_id (read_all log))
          ≡ some start)
        × (load_thread log "q1" ≡ some thread)
        × IsSorted (λ (e : ConversationEvent). e.timestamp) thread
        × ((e : ConversationEvent)
            → In e thread
            → (i : String) × Related (read_all log) start "q1" i
              × (Dict.get i (by_id (read_all log)) ≡ some e))
        × (((i : String)
              → Above (by_id (read_all log)) start i
              → Descends (read_all log) "q1" i
              → "q1" ≡ i)
            → (i : String) (e : ConversationEvent) → Related (read_all log) start "q1" i
            → Dict.get i (by_id (read_all log)) ≡ some e
            → In e thread))
load_thread-Related_example = load_thread-Related log "q1"

abbrev stopped : ConversationLog
stopped = set_conversation_state "t1" "bob" paused "a1" "peer_offline" log

abbrev plain : Strings
plain = record { lower = λ s. s; fixed4 = λ r. "0.0000"; shown = λ r. "0.0" }

abbrev hi : Ratio
hi = record { num = 8; den = 10 }

abbrev lo : Ratio
lo = record { num = 3; den = 10 }

abbrev half : Ratio
half = record { num = 1; den = 2 }

abbrev resolver : ConflictResolver
resolver = record {
  auto_confirm_threshold = hi;
  conflict_threshold = lo;
  similarity_func = default_similarity plain;
}

abbrev reply : Message
reply = record {
  message_id = "a1";
  event_id = "a1";
  sender_id = "bob";
  recipient_id = "alice";
  msg_type = "answer";
  payload = answer.payload;
  timestamp = "2026-01-01T12:00";
  in_reply_to = "q1";
  sender_key_hash = "";
  signature = "";
}

-- The transport takes everything and has one message.
abbrev settings : Context
settings = record {
  member_id = "alice";
  deliver = λ p ms. ok (record {
    success = true;
    delivered_count = 1;
    failed_count = 0;
    pending_count = 0;
    error = "";
    delivered_message_ids = [];
  });
  fetch = λ p. ok (reply ∷ []);
  resolver = some (decides plain resolver);
  uuids = λ n. "u";
  times = λ n. "t";
  repr = λ v. "";
}

abbrev world : World
world = record { mailbox = sent; log = log; uuid_at = 0; time_at = 0 }

push_outbox-Pushed_example :
    ((push_outbox settings "bob" world).0.log ≡ log)
    × (((targets "bob" world ≡ []) × (push_outbox settings "bob" world ≡ (world, ok 0)))
        ⊎ Pushed sent
            (targets "bob" world)
            (settings.deliver "bob" (build_messages settings 0 "bob" (targets "bob" world)).0)
            (push_outbox settings "bob" world))
push_outbox-Pushed_example = push_outbox-Pushed settings "bob" world

pull_inbox_twice_example :
    let once = pull_inbox settings "bob" world in
    let twice = pull_inbox settings "bob" once.0 in
    (once.1 ≡ ok 1)
    × (twice.1 ≡ ok 1)
    × (twice.0.mailbox ≡ once.0.mailbox)
    × (twice.0.log ≡ once.0.log)
pull_inbox_twice_example = pull_inbox_twice settings "bob" world (reply ∷ []) refl (refl, tt)

sync_with_peer-IsConsistent_example :
    let after = (sync_with_peer settings "bob" world).0 in
    IsConsistent after.mailbox
    × Distinct (file_ids after.log.lines)
    × ((i : String) (s : Status)
        → get_status sent i ≡ some s
        → (t : Status) × (get_status after.mailbox i ≡ some t) × Progress s t)
unfolding open_log
sync_with_peer-IsConsistent_example =
    sync_with_peer-IsConsistent settings "bob" world
      (run-IsConsistent (to_outbox question ∷ to_outbox guess ∷ []) empty_box
        (open_mailbox-IsConsistent "alice"))
      (append_all-Distinct talk empty_log tt)

reconcile-counts_example :
    let events = load_by_peer log "bob" none in
    count revised (reconcile settings "bob" world).1
    ≡ length (
        select
          (is_judged settings resolver revised (of_type realtime_answer events))
          (of_type simulated_answer events))
reconcile-counts_example = reconcile-counts settings resolver plain "bob" revised world refl

-- one push marks both messages
pushed_both : (push_outbox settings "bob" world).1 ≡ ok 2
unfolding push_outbox Mailbox.load_events run apply Dict.get Mailbox.open_mailbox Mailbox.set_status
    Dict.put Mailbox.event_from_dict Mailbox.event_to_dict Mailbox.allowed
pushed_both = refl
