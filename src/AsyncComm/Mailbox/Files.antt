-- ===== src/AsyncComm/Mailbox/Files.antt =====
-- What is read back from the JSONL files of a mailbox.
use team_harness.Prelude.{
  ℕ, zero, suc, ◌+◌, String, ◌≡◌, refl, not, Option, none, some, List, [], ◌∷◌, arith, length, take,
  select, contains,
}
use team_harness.Prelude.Dict.{Dict}
use team_harness.AsyncComm.Clock
use team_harness.AsyncComm.Lines.{file_ids}
use team_harness.AsyncComm.Types.{
  Status, pending_delivery, active, ConversationEvent, Line, blank, malformed, json,
}
use team_harness.AsyncComm.Mailbox.{
  Mailbox, event_to_dict, event_from_dict, load_loop, load_events, load_outbox, pending_count,
  pending_delivery_count, sweep, remove_delivered,
}

-- An event that goes through a mailbox file comes back with every field but the conversation state,
-- which is reset to "active".
pub event_from_dict-event_to_dict :
    (e : ConversationEvent)
    → event_from_dict (event_to_dict e) ≡ record e { conversation_state = active }
unfolding event_from_dict event_to_dict Clock.to_dict Clock.from_dict
event_from_dict-event_to_dict e = refl

load_loop-take :
    (state : Dict Status) (status : Option Status) (ls : List Line) (limit n k m : ℕ)
    → limit ≡ n + k
    → load_loop state status (some limit) n ls ≡ take k (load_loop state status none m ls)
unfolding load_loop
load_loop-take state status [] limit n zero m h = refl
load_loop-take state status [] limit n (suc k) m h = refl
load_loop-take state status (blank ∷ ls) limit n k m h =
    load_loop-take state status ls limit n k m h
load_loop-take state status (malformed ∷ ls) limit n k m h =
    load_loop-take state status ls limit n k m h
load_loop-take state status (json d ∷ ls) limit n zero m h =
    ground (arith, load_loop-take state status ls limit n 0 m)
load_loop-take state status (json d ∷ ls) limit n (suc k) m h = ground (
  arith,
  load_loop-take state status ls limit n (suc k) m,
  load_loop-take state status ls limit (suc n) k (suc m),
)

-- A limit takes the first events of what is loaded without one.
pub load_events_limit :
    (mb : Mailbox) (status : Option Status) (k : ℕ) (ls : List Line)
    → load_events mb status (some k) ls ≡ take k (load_events mb status none ls)
unfolding load_events
load_events_limit mb status k ls = load_loop-take mb.state status ls k 0 k 0 (omega arith)

count-load_loop :
    (state : Dict Status) (n : ℕ) (ls : List Line)
    → pending_count state ls ≡ length (load_loop state (some pending_delivery) none n ls)
unfolding pending_count load_loop event_from_dict
count-load_loop state n [] = refl
count-load_loop state n (blank ∷ ls) = count-load_loop state n ls
count-load_loop state n (malformed ∷ ls) = count-load_loop state n ls
count-load_loop state n (json d ∷ ls) =
    ground (arith, count-load_loop state n ls, count-load_loop state (suc n) ls)

-- The two ways to count what still waits for delivery agree.
pub pending_delivery_count-load_outbox :
    (mb : Mailbox)
    → pending_delivery_count mb ≡ length (load_outbox mb (some pending_delivery) none)
unfolding pending_delivery_count load_events
pending_delivery_count-load_outbox mb = count-load_loop mb.state 0 mb.outbox

file_ids-sweep :
    (ids : List String) (ls : List Line)
    → (file_ids (sweep ids ls).0 ≡ select (λ i. not (contains i ids)) (file_ids ls))
      × ((sweep ids ls).1 + length (file_ids (sweep ids ls).0) ≡ length (file_ids ls))
unfolding sweep
file_ids-sweep ids [] = (refl, omega arith)
file_ids-sweep ids (blank ∷ ls) = file_ids-sweep ids ls
file_ids-sweep ids (malformed ∷ ls) = file_ids-sweep ids ls
file_ids-sweep ids (json d ∷ ls) = ground (arith, file_ids-sweep ids ls)

-- `remove_delivered` drops from the outbox exactly the messages with the given ids, whatever their
-- status, and returns how many it dropped. The inbox and the statuses stay.
pub remove_delivered-file_ids :
    (ids : List String) (mb : Mailbox)
    → (file_ids (remove_delivered ids mb).0.outbox
        ≡ select (λ i. not (contains i ids)) (file_ids mb.outbox))
      × ((remove_delivered ids mb).1 + length (file_ids (remove_delivered ids mb).0.outbox)
          ≡ length (file_ids mb.outbox))
      × ((remove_delivered ids mb).0.inbox ≡ mb.inbox)
      × ((remove_delivered ids mb).0.state ≡ mb.state)
unfolding remove_delivered
remove_delivered-file_ids ids mb =
    let (left, number) = file_ids-sweep ids mb.outbox in (left, number, refl, refl)
