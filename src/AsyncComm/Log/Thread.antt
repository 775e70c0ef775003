-- ===== src/AsyncComm/Log/Thread.antt =====
-- The reply chains that `load_thread` is about, and that its two loops end.
pub mod Up
pub mod Down
pub mod Complete
use team_harness.Prelude.{
  ℕ, zero, suc, ◌+◌, ◌≤◌, ◌<◌, String, ◌≡◌, ◌⊎◌, refl, Bool, true, false, Option, none, some, List,
  [], ◌∷◌, arith, contains, length, nonempty, ◌==◌, ==_iff, if◌then◌else◌,
}
use team_harness.Prelude.Dict
use team_harness.Prelude.Dict.{Dict}
use team_harness.AsyncComm.Types.{ConversationEvent}
use team_harness.AsyncComm.Log.{index_events, by_id}

-- an event of the log
abbrev pub In : ConversationEvent → List ConversationEvent → Type 0
In e [] = ⊥
In e (x ∷ xs) = (x ≡ e) ⊎ In e xs

-- `i` is the root, a reply to it, a reply to a reply, and so on.
pub data Descends (events : List ConversationEvent) (root : String) : String → Type 0 where
  here : {i : String} → root ≡ i → Descends events root i
  reply :
      {p i : String} (e : ConversationEvent)
      → Descends events root p
      → In e events
      → e.in_reply_to ≡ p
      → e.event_id ≡ i
      → Descends events root i

-- The events that are met from `start` by following `in_reply_to`.
pub data Ascends (ids : Dict ConversationEvent) (start : ConversationEvent)
    : ConversationEvent → Type 0 where
  here : Ascends ids start start
  parent :
      {e p : ConversationEvent}
      → Ascends ids start e
      → nonempty e.in_reply_to ≡ true
      → Dict.get e.in_reply_to ids ≡ some p
      → Ascends ids start p

-- `i` is the id by which such an event is replied to.
pub data Above (ids : Dict ConversationEvent) (start : ConversationEvent) (i : String)
    : Type 0 where
  above :
      (e p : ConversationEvent)
      → Ascends ids start e
      → nonempty e.in_reply_to ≡ true
      → e.in_reply_to ≡ i
      → Dict.get i ids ≡ some p
      → Above ids start i

abbrev pub event_ids : List ConversationEvent → List String
event_ids [] = []
event_ids (e ∷ es) = e.event_id ∷ event_ids es

-- how many of `ks` are not in `seen`
abbrev pub unseen : List String → List String → ℕ
unseen seen [] = 0
unseen seen (k ∷ ks) = (if contains k seen then 0 else 1) + unseen seen ks

pub unseen-le-length : (seen ks : List String) → unseen seen ks ≤ length ks
unseen-le-length seen [] = omega arith
unseen-le-length seen (k ∷ ks) = ground (arith, unseen-le-length seen ks)

pub unseen-cons-le : (i : String) (seen ks : List String) → unseen (i ∷ seen) ks ≤ unseen seen ks
unseen-cons-le i seen [] = omega arith
unseen-cons-le i seen (k ∷ ks) = ground (arith, unseen-cons-le i seen ks)

-- one more text that was not seen
pub unseen-cons-lt :
    (i : String) (seen ks : List String)
    → contains i ks ≡ true
    → contains i seen ≡ false
    → unseen (i ∷ seen) ks < unseen seen ks
unseen-cons-lt i seen [] h new = absurd (cc)
unseen-cons-lt i seen (k ∷ ks) h new =
    ground (arith, unseen-cons-lt i seen ks, unseen-cons-le i seen ks, ==_iff k i, ==_iff i k)

pub length-event_ids : (es : List ConversationEvent) → length (event_ids es) ≡ length es
length-event_ids [] = refl
length-event_ids (e ∷ es) = omega (arith, length-event_ids es)

-- the keys of the index are the ids of the events
get-index_events :
    (es : List ConversationEvent) (d : Dict ConversationEvent) (i : String)
    → Dict.has i (index_events d es) ≡ true
    → Dict.has i d ≡ false
    → contains i (event_ids es) ≡ true
unfolding index_events
get-index_events [] d i h new = absurd (cc)
get-index_events (e ∷ es) d i h new = ground (
  arith,
  get-index_events es (Dict.put e.event_id e d) i,
  Dict.get-put e.event_id i e d,
  ==_iff e.event_id i,
)

pub contains_of_by_id :
    (es : List ConversationEvent) (i : String) {e : ConversationEvent}
    → Dict.get i (by_id es) ≡ some e
    → contains i (event_ids es) ≡ true
unfolding Dict.get
contains_of_by_id es i h = get-index_events es [] i (ground arith) refl
