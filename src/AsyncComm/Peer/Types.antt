-- ===== src/AsyncComm/Peer/Types.antt =====
-- What `PeerComm` and `ShadowComm` work on. Their transport is injected: each of its methods is a
-- function of `Network`, which is told how many calls came before, so that an answer may depend on
-- all that happened. The clock and the fresh ids are streams, as in `Sync`.
use team_harness.Prelude.{ℕ, suc, String, Bool, Option, List, if◌then◌else◌}
use team_harness.Prelude.Dict
use team_harness.Prelude.Dict.{Dict}
use team_harness.Prelude.Result.{Result, ok, raise}
use team_harness.AsyncComm.Clock.{VectorClock}
use team_harness.AsyncComm.Types.{Value, ConvState, ConversationEvent}
use team_harness.AsyncComm.Mailbox
use team_harness.AsyncComm.Log
use team_harness.AsyncComm.Log.{unchanged}
use team_harness.AsyncComm.Snapshot.{Files, Snapshots, PeerSnapshot}
use team_harness.AsyncComm.Sync.Types.{Message, SyncResult, World}

-- PeerInfo, as far as it is read
pub record PeerInfo : Type 0 where
  pub peer_id : String
  pub capabilities : List String

pub record Shadow : Type 0 where
  pub files : Files
  -- the injected `answer_generator`
  pub answer_generator : String → PeerSnapshot → Result String

pub record Network : Type 0 where
  pub member_id : String
  pub network_check_interval : ℕ
  pub deliver : ℕ → String → List Message → Result SyncResult
  pub fetch : ℕ → String → Result (List Message)
  pub is_peer_reachable : ℕ → String → Result Bool
  -- `none` where the transport has no such method
  pub fetch_team_members : Option (ℕ → Result (List PeerInfo))
  pub discover_peers : ℕ → Result (List PeerInfo)
  pub shadow : Option Shadow
  pub uuids : ℕ → String
  -- `isoformat()` of the clock's readings, the same to the second with a "Z", and `time.time()`
  pub times : ℕ → String
  pub short_times : ℕ → String
  pub seconds : ℕ → ℕ
  -- `str(x)` of a value that is no text
  pub repr : Value → String

-- the objects that a `PeerComm` changes, and the places of the streams
pub record Peer : Type 0 where
  pub world : World
  pub snapshots : Snapshots
  pub local_clock : VectorClock
  -- peer id to (is_reachable, cached_at)
  pub reachability : Dict (Bool × ℕ)
  pub calls : ℕ
  pub second_at : ℕ

-- A method returns or raises; what it wrote before an exception stays.
abbrev pub Step : Type 0 → Type 0
Step A = Peer → Peer × Result A

abbrev pub resume : {A B : Type 0} → Peer × Result A → (A → Step B) → Peer × Result B
resume (p, ok a) f = f a p
resume (p, raise e) f = (p, raise e)

infixl 5 ◌>>=◌ ◌>>◌
abbrev pub ◌>>=◌ : {A B : Type 0} → Step A → (A → Step B) → Step B
◌>>=◌ m f p = resume (m p) f

abbrev pub ◌>>◌ : {B : Type 0} → Step (Unit {0}) → Step B → Step B
◌>>◌ m k p = resume (m p) (λ _. k)

abbrev pub give : {A : Type 0} → A → Step A
give a p = (p, ok a)

abbrev pub fail : {A : Type 0} → String → Step A
fail e p = (p, raise e)

-- a write to the log or to the mailbox
abbrev pub log_event : ConversationEvent → Step (Unit {0})
log_event e p = (record p { world = record p.world { log = (Log.append e p.world.log).0 } }, ok tt)

abbrev pub put_outbox : ConversationEvent → Step (Unit {0})
put_outbox e p = (
  record p { world = record p.world { mailbox = (Mailbox.append_outbox e p.world.mailbox).0 } },
  ok tt,
)

abbrev pub called : Peer → Peer
called p = record p { calls = suc p.calls }

module _ (c : Network) where
  abbrev pub fresh_uuid : Step String
  fresh_uuid p = (
    record p { world = record p.world { uuid_at = suc p.world.uuid_at } },
    ok (c.uuids p.world.uuid_at),
  )

  -- _utcnow_iso of PeerComm, and that of ShadowComm
  abbrev pub utcnow : Step String
  utcnow p = (
    record p { world = record p.world { time_at = suc p.world.time_at } },
    ok (c.times p.world.time_at),
  )

  abbrev pub utcnow_short : Step String
  utcnow_short p = (
    record p { world = record p.world { time_at = suc p.world.time_at } },
    ok (c.short_times p.world.time_at),
  )

  abbrev pub time_now : Step ℕ
  time_now p = (record p { second_at = suc p.second_at }, ok (c.seconds p.second_at))

  abbrev pub deliver_to : String → List Message → Step SyncResult
  deliver_to peer_id ms p = (called p, c.deliver p.calls peer_id ms)

  abbrev pub fetch_from : String → Step (List Message)
  fetch_from peer_id p = (called p, c.fetch p.calls peer_id)

  abbrev pub probe_peer : String → Step Bool
  probe_peer peer_id p = (called p, c.is_peer_reachable p.calls peer_id)

  abbrev pub discover : Step (List PeerInfo)
  discover p = (called p, c.discover_peers p.calls)

  -- `set_conversation_state` reads the clock for a new entry
  abbrev pub set_state : String → ConvState → String → String → Step (Unit {0})
  set_state peer_id state last_event_id reason p = (
    record p {
      world = record p.world {
        log =
            Log.set_conversation_state (c.times p.world.time_at) peer_id state last_event_id reason
              p.world.log;
        time_at =
            if unchanged (Dict.get peer_id p.world.log.cache) state last_event_id
            then p.world.time_at
            else suc p.world.time_at;
      };
    },
    ok tt,
  )
