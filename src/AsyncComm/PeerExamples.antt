-- ===== src/AsyncComm/PeerExamples.antt =====
-- Runs of `PeerComm` and of the snapshots: alice asks bob, who can be reached, and carol, who
-- cannot.
use Prim.Native.String.{◌++◌ as str_append, count as str_count}
use package.text.Mathlib.TextLemmas.{length-append}
use team_harness.Prelude.{
  ℕ, zero, suc, ◌+◌, ◌*◌, String, ◌≡◌, ◌≢◌, refl, ap, true, false, not, ◌&&◌, none, some, List, [],
  ◌∷◌, ltb, contains, nonempty, ◌==◌, Distinct, if◌then◌else◌, arith,
}
use team_harness.Prelude.Dict
use team_harness.Prelude.Dict.{Dict}
use team_harness.Prelude.Result.{ok}
use team_harness.AsyncComm.Clock.{new_clock}
use team_harness.AsyncComm.Types.{
  ask, realtime_answer, active, paused, Status, text, Line, ConversationEvent,
}
use team_harness.AsyncComm.Lines.{file_ids}
use team_harness.AsyncComm.Mailbox.{get_status}
use team_harness.AsyncComm.Mailbox.Transitions.{to_outbox, run, Progress}
use team_harness.AsyncComm.Mailbox.Invariant.{IsConsistent, open_mailbox-IsConsistent}
use team_harness.AsyncComm.Log.{open_log}
use team_harness.AsyncComm.Log.States.{HasState}
use team_harness.AsyncComm.Snapshot.{
  Files, Snapshots, day, get_snapshot, is_stale, next_version, refresh_snapshot, expire_stale,
}
use team_harness.AsyncComm.Snapshot.Refresh.{refresh_snapshot-get_snapshot}
use team_harness.AsyncComm.Snapshot.Expiry.{expire_stale-get}
use team_harness.AsyncComm.Sync.Types.{Message, SyncResult}
use team_harness.AsyncComm.Peer.Types.{PeerInfo, Shadow, Network, Peer}
use team_harness.AsyncComm.Peer.Asks.{is_peer_reachable, realtime_ask, offline_ask}
use team_harness.AsyncComm.Peer.{with_tag, unique_candidates, ask_peer}
use team_harness.AsyncComm.Peer.Cache.{is_peer_reachable-once}
use team_harness.AsyncComm.Peer.Routes.{
  first_of, replies_to, reply_payload, realtime_ask-first_reply,
}
use team_harness.AsyncComm.Peer.Offline.{IsSimulated, offline_ask-IsSimulated}
use team_harness.AsyncComm.Peer.Candidates.{has_tag, unique_candidates-with_tag}
use team_harness.AsyncComm.Peer.Safety.{ask_peer-IsConsistent}
use team_harness.AsyncComm.Examples.{question, empty_box}

-- a version text of strokes
strokes : ℕ → String
strokes zero = ""
strokes (suc n) = str_append "I" (strokes n)

count-strokes : (n : ℕ) → str_count (strokes n) ≡ n
unfolding strokes
count-strokes zero = refl
count-strokes (suc n) = omega (arith, length-append "I" (strokes n), count-strokes n)

abbrev files : Files
files = record {
  number_of = λ s. some (str_count s);
  version_text = strokes;
  parse_iso = λ s. if s == "2026-01-01" then some 1000 else none;
  is_unsafe = λ p. p == "../passwd";
  normal = λ p. p;
  is_removable = λ i. not (i == "locked");
  repr = λ v. "?";
}

abbrev snapshots : Snapshots
snapshots = record { dirs = []; ttl_days = 7 }

refresh_snapshot-get_snapshot_example :
    let (after, snapshot) =
      refresh_snapshot files "2026-01-01" "carol"
        (("notes.md", "hi") ∷ [])
        none
        (some new_clock)
        snapshots in
    (get_snapshot files after "carol" ≡ some snapshot)
    × ((q : String) → q ≢ "carol" → get_snapshot files after q ≡ get_snapshot files snapshots q)
    × ((n : ℕ) × (snapshot.snapshot_version ≡ strokes n)
        × (next_version files after "carol" ≡ strokes (n + 1)))
    × ((now : ℕ) → is_stale files now after "carol" ≡ ltb (1000 + 7 * day) now)
refresh_snapshot-get_snapshot_example =
    refresh_snapshot-get_snapshot files "2026-01-01" "carol" (("notes.md", "hi") ∷ []) none
      (some new_clock) snapshots 1000 (λ n. ap some (count-strokes n)) refl (omega arith)

abbrev captured : Snapshots
captured =
    (refresh_snapshot files "2026-01-01" "carol" (("notes.md", "hi") ∷ []) none (some new_clock)
      snapshots).0

expire_stale-get_example :
    let (after, expired) = expire_stale files (λ n. 8 * day) captured in
    (contains "carol" expired ≡ (
      Dict.has "carol" captured.dirs
      && (is_stale files (8 * day) captured "carol" && files.is_removable "carol")))
    × (Dict.get "carol" after.dirs
        ≡ (if contains "carol" expired then none else Dict.get "carol" captured.dirs))
expire_stale-get_example = expire_stale-get files (λ n. 8 * day) captured "carol"

abbrev shadow : Shadow
shadow = record { files = files; answer_generator = λ q s. ok "8080" }

abbrev reply : Message
reply = record {
  message_id = "m9";
  event_id = "a9";
  sender_id = "bob";
  recipient_id = "alice";
  msg_type = "answer";
  payload = ("answer", text "8443") ∷ [];
  timestamp = "t9";
  in_reply_to = "q1";
  sender_key_hash = "";
  signature = "";
}

abbrev taken : SyncResult
taken = record {
  success = true;
  delivered_count = 1;
  failed_count = 0;
  pending_count = 0;
  error = "";
  delivered_message_ids = [];
}

abbrev net : Network
net = record {
  member_id = "alice";
  network_check_interval = 60;
  deliver = λ n i ms. ok taken;
  fetch = λ n i. ok (reply ∷ []);
  is_peer_reachable = λ n i. if i == "bob" then ok true else ok false;
  fetch_team_members = none;
  discover_peers = λ n. ok [];
  shadow = some shadow;
  uuids = λ n. str_append "e" (strokes n);
  times = λ n. "t";
  short_times = λ n. "tZ";
  seconds = λ n. n;
  repr = λ v. "?";
}

abbrev alice : Peer
alice = record {
  world = record { mailbox = empty_box; log = open_log [] none; uuid_at = 0; time_at = 0 };
  snapshots = captured;
  local_clock = new_clock;
  reachability = [];
  calls = 0;
  second_at = 0;
}

is_peer_reachable-once_example :
    let q = (is_peer_reachable net "bob" alice).0 in
    ((is_peer_reachable net "bob" alice).1 ≡ ok true)
    × (q.calls ≡ 1)
    × (is_peer_reachable net "bob" q ≡ (record q { second_at = suc q.second_at }, ok true))
    × ((k : String) → k ≢ "bob" → Dict.get k q.reachability ≡ none)
unfolding Dict.get
is_peer_reachable-once_example = is_peer_reachable-once net "bob" true alice refl refl (omega arith)

realtime_ask-first_reply_example :
    let (q, r) = realtime_ask net question "bob" "which port?" "" alice in
    (e : ConversationEvent) × (r ≡ ok e)
    × (e.event_type ≡ realtime_answer)
    × (e.in_reply_to ≡ "q1")
    × (e.payload ≡ reply_payload net (first_of (replies_to "q1" (reply ∷ []))))
    × HasState q.world.log "bob" active e.event_id
    × (q.world.mailbox ≡ empty_box)
realtime_ask-first_reply_example =
    realtime_ask-first_reply net question "bob" "which port?" "" alice taken (reply ∷ [])
      (λ m. refl) refl

offline_ask-IsSimulated_example :
    let asked = record question { peer_id = "dave" } in
    let (q, r) = offline_ask net asked "dave" "which port?" alice in
    (x : ConversationEvent) × (e : ConversationEvent) × (r ≡ ok e)
    × IsSimulated x "8080" e
    × (x.event_type ≡ ask)
    × (x.payload ≡ ("question", text "which port?") ∷ [])
    × (x.in_reply_to ≡ "q1")
    × (x.peer_id ≡ "dave")
    × HasState q.world.log "dave" paused "q1"
    × (q.world.mailbox ≡ run (to_outbox asked ∷ to_outbox x ∷ []) empty_box)
offline_ask-IsSimulated_example =
    offline_ask-IsSimulated net shadow (record question { peer_id = "dave" }) "which port?" "8080"
      alice refl refl

abbrev team : List PeerInfo
team =
    record { peer_id = "bob"; capabilities = "ports" ∷ [] }
    ∷ record { peer_id = "alice"; capabilities = "ports" ∷ [] }
    ∷ []

unique_candidates-with_tag_example :
    let candidates = unique_candidates "alice" [] (with_tag "ports" team) in
    Distinct candidates
    × ((x : String)
        → contains x candidates ≡ (has_tag "ports" x team && (nonempty x && not (x == "alice"))))
unique_candidates-with_tag_example = unique_candidates-with_tag "alice" "ports" team

ask_peer-IsConsistent_example :
    let w = (ask_peer net "carol" "which port?" "" "" alice).0.world in
    IsConsistent w.mailbox
    × Distinct (file_ids w.log.lines)
    × ((ls : List Line) × (w.log.lines ≡ ls))
    × ((e : String) (s : Status)
        → get_status empty_box e ≡ some s
        → (t : Status) × (get_status w.mailbox e ≡ some t) × Progress s t)
unfolding open_log
ask_peer-IsConsistent_example =
    ask_peer-IsConsistent net "carol" "which port?" "" "" alice (open_mailbox-IsConsistent "alice")
      tt
