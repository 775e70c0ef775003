-- ===== src/AsyncComm/Log/Queries.antt =====
-- The event file: what is appended is read back once, in order, and the queries are sorted
-- selections of it.
use team_harness.Prelude.{
  String, ◌≡◌, refl, sym, ◌∙◌, true, false, not, ◌&&◌, ◌||◌, none, some, List, [], ◌∷◌, ◌++◌, arith,
  length, select, contains, contains-append, ◌==◌, ==_iff, ==_refl, if◌then◌else◌, Bool-cases, inl,
  inr, Distinct, Distinct-snoc,
}
use mathlib.Core.List.{Perm}
use team_harness.Prelude.Sort.{sort_by-perm, sort_by-IsSorted, length-sort_by, IsSorted}
use team_harness.AsyncComm.Clock
use team_harness.AsyncComm.Lines.{file_ids, file_ids-append}
use team_harness.AsyncComm.Types.{
  EventType, ConversationEvent, same_event_type, Line, blank, malformed, json,
}
use team_harness.AsyncComm.Log.{
  ConversationLog, event_to_dict, event_from_dict, exists_in, exists, append, read_lines, read_all,
  load_by_peer, load_by_type, count, find_event, get_event,
}

-- Every field of an event survives the log file.
pub event_from_dict-event_to_dict :
    (e : ConversationEvent) → event_from_dict (event_to_dict e) ≡ some e
unfolding event_from_dict event_to_dict Clock.to_dict Clock.from_dict
event_from_dict-event_to_dict e = refl

exists_in-file_ids : (i : String) (ls : List Line) → exists_in i ls ≡ contains i (file_ids ls)
unfolding exists_in
exists_in-file_ids i [] = refl
exists_in-file_ids i (blank ∷ ls) = exists_in-file_ids i ls
exists_in-file_ids i (malformed ∷ ls) = exists_in-file_ids i ls
exists_in-file_ids i (json d ∷ ls) = ground (arith, exists_in-file_ids i ls)

read_lines-append : (ls ms : List Line) → read_lines (ls ++ ms) ≡ read_lines ls ++ read_lines ms
unfolding read_lines
read_lines-append [] ms = refl
read_lines-append (blank ∷ ls) ms = read_lines-append ls ms
read_lines-append (malformed ∷ ls) ms = read_lines-append ls ms
read_lines-append (json d ∷ ls) ms = ground (arith, read_lines-append ls ms)

read_lines-written :
    (ls : List Line) (e : ConversationEvent)
    → read_lines (ls ++ json (event_to_dict e) ∷ []) ≡ read_lines ls ++ e ∷ []
unfolding read_lines event_from_dict event_to_dict Clock.from_dict Clock.to_dict
read_lines-written ls e = read_lines-append ls (json (event_to_dict e) ∷ [])

-- `append` adds the event behind the events that are there, unless its id is there already.
pub append-read_all :
    (e : ConversationEvent) (log : ConversationLog)
    → read_all (append e log).0
      ≡ (if exists e.event_id log then read_all log else read_all log ++ e ∷ [])
unfolding append
append-read_all e log = ground (arith, read_lines-written log.lines e)

find_event-append :
    (i : String) (es fs : List ConversationEvent)
    → find_event i (es ++ fs) ≡ elim (find_event i es) [ none ↦ find_event i fs | some e ↦ some e ]
unfolding find_event
find_event-append i [] fs = refl
find_event-append i (e ∷ es) fs = ground (arith, find_event-append i es fs)

find_event-absent :
    (i : String) (ls : List Line) → exists_in i ls ≡ false → find_event i (read_lines ls) ≡ none
unfolding find_event read_lines exists_in event_from_dict
find_event-absent i [] h = refl
find_event-absent i (blank ∷ ls) h = find_event-absent i ls h
find_event-absent i (malformed ∷ ls) h = find_event-absent i ls h
find_event-absent i (json d ∷ ls) h = ground (arith, find_event-absent i ls)

-- After `append` the event is found under its id if that was new, and every other lookup is as
-- before.
pub get_event-append :
    (e : ConversationEvent) (log : ConversationLog) (i : String)
    → get_event (append e log).0 i
      ≡ (if not (exists e.event_id log) && (e.event_id == i) then some e else get_event log i)
unfolding get_event append find_event
get_event-append e log i = elim (Bool-cases (exists e.event_id log)) [
  | inl old ↦ rw (old, append) (ground arith)
  | inr fresh ↦
      rw (fresh, append, read_lines-written log.lines e)
        (ground (
          arith,
          find_event-append i (read_lines log.lines) (e ∷ []),
          find_event-absent i log.lines,
          ==_iff e.event_id i,
        ))
]

unfoldable pub append_all : List ConversationEvent → ConversationLog → ConversationLog
append_all [] log = log
append_all (e ∷ es) log = append_all es (append e log).0

pub exists-append :
    (i : String) (e : ConversationEvent) (log : ConversationLog)
    → exists i (append e log).0 ≡ (exists i log || (e.event_id == i))
unfolding append event_to_dict
exists-append i e log = ground (
  arith,
  exists_in-file_ids i log.lines,
  exists_in-file_ids i (log.lines ++ json (event_to_dict e) ∷ []),
  file_ids-append log.lines (json (event_to_dict e) ∷ []),
  contains-append i (file_ids log.lines) (e.event_id ∷ []),
  ==_iff e.event_id i,
)

pub append_known :
    (e : ConversationEvent) (log : ConversationLog)
    → exists e.event_id log ≡ true
    → (append e log).0 ≡ log
unfolding append
append_known e log h = rw h

abbrev AllExist : List ConversationEvent → ConversationLog → Type 0
AllExist [] log = Unit
AllExist (e ∷ es) log = (exists e.event_id log ≡ true) × AllExist es log

append_all_known :
    (es : List ConversationEvent) (log : ConversationLog)
    → AllExist es log
    → append_all es log ≡ log
unfolding append_all
append_all_known [] log h = refl
append_all_known (e ∷ es) log h = rw (append_known e log h.0) (append_all_known es log h.1)

exists-append_all :
    (i : String) (es : List ConversationEvent) (log : ConversationLog)
    → exists i log ≡ true
    → exists i (append_all es log) ≡ true
unfolding append_all
exists-append_all i [] log h = h
exists-append_all i (e ∷ es) log h =
    exists-append_all i es (append e log).0 (ground (arith, exists-append i e log))

append_all-exist :
    (es : List ConversationEvent) (log : ConversationLog) → AllExist es (append_all es log)
unfolding append_all
append_all-exist [] log = tt
append_all-exist (e ∷ es) log = (
  exists-append_all e.event_id es (append e log).0
      (ground (arith, exists-append e.event_id e log, ==_refl e.event_id)),
  append_all-exist es (append e log).0,
)

-- Appending the same events once more changes nothing.
pub append_all_idempotent :
    (es : List ConversationEvent) (log : ConversationLog)
    → append_all es (append_all es log) ≡ append_all es log
append_all_idempotent es log = append_all_known es (append_all es log) (append_all-exist es log)

pub append-Distinct :
    (e : ConversationEvent) (log : ConversationLog)
    → Distinct (file_ids log.lines)
    → Distinct (file_ids (append e log).0.lines)
unfolding append event_to_dict
append-Distinct e log d = elim (Bool-cases (exists e.event_id log)) [
  | inl old ↦ rw (old, append) d
  | inr fresh ↦
      rw (fresh, append, file_ids-append log.lines (json (event_to_dict e) ∷ []))
        (Distinct-snoc e.event_id (file_ids log.lines)
          (sym (exists_in-file_ids e.event_id log.lines) ∙ fresh) d)
]

-- Appends to a log in which no id stands twice never store an id twice.
pub append_all-Distinct :
    (es : List ConversationEvent) (log : ConversationLog)
    → Distinct (file_ids log.lines)
    → Distinct (file_ids (append_all es log).lines)
unfolding append_all
append_all-Distinct [] log d = d
append_all-Distinct (e ∷ es) log d =
    append_all-Distinct es (append e log).0 (append-Distinct e log d)

-- Without a limit, `load_by_peer` and `load_by_type` return exactly the events of the peer or of
-- the type, in ascending order of their timestamps, and `count` is how many they are.
pub queries-IsSorted :
    (log : ConversationLog) (p : String) (t : EventType)
    → IsSorted (λ (e : ConversationEvent). e.timestamp) (load_by_peer log p none)
      × Perm (load_by_peer log p none) (select (λ e. e.peer_id == p) (read_all log))
      × (count log (some p) none ≡ length (load_by_peer log p none))
      × IsSorted (λ (e : ConversationEvent). e.timestamp) (load_by_type log t none)
      × Perm (load_by_type log t none) (select (λ e. same_event_type e.event_type t) (read_all log))
      × (count log none (some t) ≡ length (load_by_type log t none))
unfolding load_by_peer load_by_type count
queries-IsSorted log p t = (
  sort_by-IsSorted _ _,
  sort_by-perm _ _,
  sym (length-sort_by _ _),
  sort_by-IsSorted _ _,
  sort_by-perm _ _,
  sym (length-sort_by _ _),
)
