-- ===== src/AsyncComm/Lines.antt =====
-- The event ids that stand in a JSONL file, as `data.get("event_id")` finds them.
use team_harness.Prelude.{String, ◌≡◌, refl, none, some, List, [], ◌∷◌, ◌++◌, arith}
use team_harness.AsyncComm.Types.{Line, blank, malformed, json}

abbrev pub file_ids : List Line → List String
file_ids [] = []
file_ids (json d ∷ ls) = elim d.event_id [ none ↦ file_ids ls | some i ↦ i ∷ file_ids ls ]
file_ids (_ ∷ ls) = file_ids ls

pub file_ids-append : (ls ms : List Line) → file_ids (ls ++ ms) ≡ file_ids ls ++ file_ids ms
file_ids-append [] ms = refl
file_ids-append (blank ∷ ls) ms = file_ids-append ls ms
file_ids-append (malformed ∷ ls) ms = file_ids-append ls ms
file_ids-append (json d ∷ ls) ms = ground (arith, file_ids-append ls ms)
