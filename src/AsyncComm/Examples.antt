-- ===== src/AsyncComm/Examples.antt =====
-- Runs of the communication core on a small exchange: a question of alice's to bob, answered by
-- the shadow first and by bob later.
use team_harness.Prelude.{◌≡◌, refl, true, false, none, some, List, [], ◌∷◌, ◌++◌}
use team_harness.Prelude.Dict
use team_harness.Prelude.Dict.{Dict}
use team_harness.AsyncComm.Clock.{VectorClock, compare, compare_loop, count, concurrent}
use team_harness.AsyncComm.Clock.Order.{Means, compare-Means}
use team_harness.AsyncComm.Types.{
  ask, realtime_answer, simulated_answer, Status, pending_delivery, delivered, active, text,
  ConversationEvent,
}
use team_harness.AsyncComm.Mailbox
use team_harness.AsyncComm.Mailbox.{
  Mailbox, open_mailbox, append_outbox, update_status, get_status, load_outbox, load_events,
  pending_delivery_count, remove_delivered, known,
}
use team_harness.AsyncComm.Mailbox.Transitions.{
  Op, to_outbox, update, apply, run, Progress, Verdict, update_status-Verdict, run-Progress,
}
use team_harness.AsyncComm.Mailbox.Invariant.{
  IsConsistent, open_mailbox-IsConsistent, run-IsConsistent, append_outbox-load_outbox,
}

abbrev pub question : ConversationEvent
question = record {
  event_id = "q1";
  event_type = ask;
  peer_id = "bob";
  timestamp = "2026-01-01T10:00";
  vector_clock = record { counters = ("alice", 1) ∷ [] };
  payload = ("question", text "which port?") ∷ [];
  in_reply_to = "";
  degraded = false;
  realtime = false;
  based_on = "";
  snapshot_stale = false;
  conversation_state = active;
}

abbrev pub guess : ConversationEvent
guess = record question {
  event_id = "s1";
  event_type = simulated_answer;
  timestamp = "2026-01-01T10:01";
  payload = ("answer", text "8080") ∷ [];
  in_reply_to = "q1";
  degraded = true;
}

abbrev pub answer : ConversationEvent
answer = record question {
  event_id = "a1";
  event_type = realtime_answer;
  timestamp = "2026-01-01T12:00";
  payload = ("answer", text "9000") ∷ [];
  in_reply_to = "q1";
  realtime = true;
}

abbrev pub ours : VectorClock
ours = record { counters = ("alice", 2) ∷ ("bob", 1) ∷ [] }

abbrev pub theirs : VectorClock
theirs = record { counters = ("bob", 3) ∷ [] }

abbrev pub empty_box : Mailbox
empty_box = open_mailbox "alice" [] [] none

abbrev sent_ops : List Op
sent_ops = to_outbox question ∷ to_outbox guess ∷ []

abbrev pub sent : Mailbox
sent = run sent_ops empty_box

clocks_concurrent : compare ours theirs ≡ concurrent
unfolding compare compare_loop count Dict.get
clocks_concurrent = refl

compare-Means_example : Means (compare ours theirs) ours theirs
compare-Means_example = compare-Means ours theirs

update_status-Verdict_example :
    Verdict "q1" delivered sent
      (update_status "q1" delivered sent).0
      (update_status "q1" delivered sent).1
update_status-Verdict_example = update_status-Verdict "q1" delivered sent

waits : get_status sent "q1" ≡ some pending_delivery
unfolding run apply append_outbox open_mailbox Dict.get Dict.put Mailbox.set_status
waits = refl

run-Progress_example :
    (t : Status) × (get_status
        (run (update "q1" Status.revised ∷ update "q1" delivered ∷ []) sent)
        "q1"
      ≡ some t)
    × Progress pending_delivery t
run-Progress_example =
    run-Progress (update "q1" Status.revised ∷ update "q1" delivered ∷ []) "q1" pending_delivery
      sent waits

run-IsConsistent_example : IsConsistent sent
run-IsConsistent_example = run-IsConsistent sent_ops empty_box (open_mailbox-IsConsistent "alice")

append_outbox-load_outbox_example :
    load_outbox (append_outbox question empty_box).0 (some pending_delivery) none
    ≡ load_outbox empty_box (some pending_delivery) none
      ++ record question { conversation_state = active } ∷ []
unfolding Dict.get open_mailbox
append_outbox-load_outbox_example =
    append_outbox-load_outbox question empty_box (open_mailbox-IsConsistent "alice") refl refl
