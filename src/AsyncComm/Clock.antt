-- ===== src/AsyncComm/Clock.antt =====
-- `VectorClock` of server/async_comm/types.py.
pub mod Order
use team_harness.Prelude.{
  ℕ, ◌+◌, max, String, Bool, true, false, not, ◌&&◌, List, [], ◌∷◌, ◌++◌, map, none, some, ltb,
  contains, select, if◌then◌else◌,
}
use team_harness.Prelude.Dict
use team_harness.Prelude.Dict.{Dict}

pub record VectorClock : Type 0 where
  pub counters : Dict ℕ

-- counters.get(peer_id, 0)
unfoldable pub count : String → VectorClock → ℕ
unfolding Dict.get
count p c = elim (Dict.get p c.counters) [ none ↦ 0 | some n ↦ n ]

abbrev pub new_clock : VectorClock
new_clock = record { counters = [] }

unfoldable pub increment : String → VectorClock → VectorClock
increment p c = record { counters = Dict.put p (count p c + 1) c.counters }

-- set(self.counters) | set(other.counters)
abbrev pub all_peers : VectorClock → VectorClock → List String
all_peers a b =
    Dict.keys a.counters
    ++ select (λ p. not (contains p (Dict.keys a.counters))) (Dict.keys b.counters)

unfoldable pub merge : VectorClock → VectorClock → VectorClock
merge a b = record { counters = map (λ p. (p, max (count p a) (count p b))) (all_peers a b) }

pub data Causality : Type 0 where
  before after equal concurrent : Causality

-- the loop of `compare`, over `self_less` and `self_greater`
unfoldable pub compare_loop : VectorClock → VectorClock → Bool → Bool → List String → Bool × Bool
compare_loop a b less greater [] = (less, greater)
compare_loop a b less greater (p ∷ ps) =
    compare_loop a b (if ltb (count p a) (count p b) then true else less)
      (if ltb (count p a) (count p b)
        then greater
        else if ltb (count p b) (count p a)
        then true
        else greater)
      ps

abbrev pub verdict : Bool → Bool → Causality
verdict less greater =
    if not less && not greater
    then equal
    else if less && not greater
    then before
    else if greater && not less
    then after
    else concurrent

unfoldable pub compare : VectorClock → VectorClock → Causality
compare a b =
    let (less, greater) = compare_loop a b false false (all_peers a b) in verdict less greater

unfoldable pub to_dict : VectorClock → Dict ℕ
to_dict c = c.counters

unfoldable pub from_dict : Dict ℕ → VectorClock
from_dict d = record { counters = d }
