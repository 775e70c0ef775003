-- ===== src/AsyncComm/Clock/Order.antt =====
-- `compare` decides the pointwise order of clocks, `merge` is its least upper bound, and
-- `increment` moves strictly up.
use team_harness.Prelude.{
  ℕ, ◌+◌, ◌≤◌, ◌<◌, max, ◌&&◌, ◌==◌, String, ◌≡◌, refl, inl, inr, Bool, true, false, ◌||◌, List, [],
  ◌∷◌, map, arith, ltb, contains, contains-append, select, not, if◌then◌else◌, Bool-cases, ==_iff,
}
use team_harness.Prelude.Dict
use team_harness.Prelude.Dict.{Dict, get-put, has-keys}
use team_harness.AsyncComm.Clock.{
  VectorClock, count, increment, all_peers, merge, Causality, before, after, equal, concurrent,
  compare_loop, verdict, compare,
}

-- every counter of `a` is at most that of `b`
abbrev pub Precedes : VectorClock → VectorClock → Type 0
Precedes a b = (p : String) → count p a ≤ count p b

-- what each answer of `compare` says
abbrev pub Means : Causality → VectorClock → VectorClock → Type 0
Means before a b = Precedes a b × ¬ Precedes b a
Means after a b = Precedes b a × ¬ Precedes a b
Means equal a b = Precedes a b × Precedes b a
Means concurrent a b = (¬ Precedes a b) × (¬ Precedes b a)

abbrev any_less : VectorClock → VectorClock → List String → Bool
any_less a b [] = false
any_less a b (p ∷ ps) = ltb (count p a) (count p b) || any_less a b ps

loop-any_less :
    (a b : VectorClock) (l g : Bool) (ps : List String)
    → compare_loop a b l g ps ≡ (l || any_less a b ps, g || any_less b a ps)
unfolding compare_loop
loop-any_less a b l g [] = ground arith
loop-any_less a b l g (p ∷ ps) = ground (
  arith,
  loop-any_less a b (if ltb (count p a) (count p b) then true else l)
      (if ltb (count p a) (count p b) then g else if ltb (count p b) (count p a) then true else g)
      ps,
)

any_less-witness :
    (a b : VectorClock) (ps : List String)
    → any_less a b ps ≡ true
    → (p : String) × (count p a < count p b)
any_less-witness a b [] h = cc
any_less-witness a b (p ∷ ps) h = elim (Bool-cases (ltb (count p a) (count p b))) [
  | inl e ↦ (p, ground arith)
  | inr e ↦ any_less-witness a b ps (ground arith)
]

any_less-false :
    (a b : VectorClock) (ps : List String) (p : String)
    → any_less a b ps ≡ false
    → contains p ps ≡ true
    → count p b ≤ count p a
any_less-false a b [] p h m = cc
any_less-false a b (q ∷ ps) p h m = ground (arith, any_less-false a b ps p, ==_iff q p)

contains-select_absent :
    (xs ys : List String) (p : String)
    → contains p (select (λ q. not (contains q xs)) ys) ≡ (contains p ys && not (contains p xs))
contains-select_absent xs [] p = refl
contains-select_absent xs (y ∷ ys) p = ground (arith, contains-select_absent xs ys p, ==_iff y p)

contains-all_peers :
    (a b : VectorClock) (p : String)
    → contains p (all_peers a b) ≡ (Dict.has p a.counters || Dict.has p b.counters)
contains-all_peers a b p =
    let xs = Dict.keys a.counters in
    let ys = Dict.keys b.counters in
    ground (
      arith,
      contains-append p xs (select (λ q. not (contains q xs)) ys),
      contains-select_absent xs ys p,
      has-keys p a.counters,
      has-keys p b.counters,
    )

-- a peer that neither clock names counts 0 in both
count_absent :
    (a b : VectorClock) (p : String)
    → contains p (all_peers a b) ≡ false
    → (count p a ≡ 0) × (count p b ≡ 0)
unfolding count
count_absent a b p h = ground (arith, contains-all_peers a b p)

all_peers-le :
    (a b : VectorClock)
    → any_less a b (all_peers a b) ≡ false
    → (p : String) → count p b ≤ count p a
all_peers-le a b h p = elim (Bool-cases (contains p (all_peers a b))) [
  | inl m ↦ any_less-false a b (all_peers a b) p h m
  | inr m ↦ omega (arith, count_absent a b p m)
]

all_peers-ge :
    (a b : VectorClock)
    → any_less b a (all_peers a b) ≡ false
    → (p : String) → count p a ≤ count p b
all_peers-ge a b h p = elim (Bool-cases (contains p (all_peers a b))) [
  | inl m ↦ any_less-false b a (all_peers a b) p h m
  | inr m ↦ omega (arith, count_absent a b p m)
]

not-Precedes : (a b : VectorClock) (ps : List String) → any_less a b ps ≡ true → ¬ Precedes b a
not-Precedes a b ps h all = let (p, lt) = any_less-witness a b ps h in omega (arith, all p)

Means-of_flags :
    (a b : VectorClock) (less greater : Bool)
    → (less ≡ false → (p : String) → count p b ≤ count p a)
    → (greater ≡ false → (p : String) → count p a ≤ count p b)
    → (less ≡ true → ¬ Precedes b a)
    → (greater ≡ true → ¬ Precedes a b)
    → Means (verdict less greater) a b
Means-of_flags a b false false le ge lt gt = (ge refl, le refl)
Means-of_flags a b true false le ge lt gt = (ge refl, lt refl)
Means-of_flags a b false true le ge lt gt = (le refl, gt refl)
Means-of_flags a b true true le ge lt gt = (gt refl, lt refl)

-- `compare` says "before", "after", "equal" or "concurrent" exactly as the counters are ordered
-- peer by peer.
pub compare-Means : (a b : VectorClock) → Means (compare a b) a b
unfolding compare
compare-Means a b = rw (loop-any_less a b false false (all_peers a b)) (
    Means-of_flags a b (any_less a b (all_peers a b)) (any_less b a (all_peers a b))
      (all_peers-le a b) (all_peers-ge a b) (not-Precedes a b _) (not-Precedes b a _))

count-map :
    (f : String → ℕ) (p : String) (ps : List String)
    → count p (record { counters = map (λ q. (q, f q)) ps }) ≡ (if contains p ps then f p else 0)
unfolding count Dict.get
count-map f p [] = refl
count-map f p (q ∷ ps) = ground (arith, count-map f p ps, ==_iff q p)

-- `merge` takes the larger counter of every peer.
pub count-merge :
    (p : String) (a b : VectorClock) → count p (merge a b) ≡ max (count p a) (count p b)
unfolding merge
count-merge p a b =
    ground
      (arith, count-map (λ q. max (count q a) (count q b)) p (all_peers a b), count_absent a b p)

pub count-increment :
    (p q : String) (c : VectorClock)
    → count q (increment p c) ≡ (if p == q then count p c + 1 else count q c)
unfolding count increment
count-increment p q c = ground (arith, get-put p q (count p c + 1) c.counters, ==_iff p q)

-- `merge` is the least clock that both clocks precede.
pub merge-least :
    (a b : VectorClock)
    → Precedes a (merge a b)
      × Precedes b (merge a b)
      × ((c : VectorClock) → Precedes a c → Precedes b c → Precedes (merge a b) c)
merge-least a b = (
  λ p. omega (arith, count-merge p a b),
  λ p. omega (arith, count-merge p a b),
  λ c h k p. omega (arith, count-merge p a b, h p, k p),
)

-- two clocks compare in one way only
Means-unique : (x y : Causality) (a b : VectorClock) → Means x a b → Means y a b → x ≡ y
Means-unique before before a b h k = refl
Means-unique after after a b h k = refl
Means-unique equal equal a b h k = refl
Means-unique concurrent concurrent a b h k = refl
Means-unique before after a b h k = absurd (k.1 h.0)
Means-unique before equal a b h k = absurd (h.1 k.1)
Means-unique before concurrent a b h k = absurd (k.0 h.0)
Means-unique after before a b h k = absurd (h.1 k.0)
Means-unique after equal a b h k = absurd (h.1 k.0)
Means-unique after concurrent a b h k = absurd (k.1 h.0)
Means-unique equal before a b h k = absurd (k.1 h.1)
Means-unique equal after a b h k = absurd (k.1 h.0)
Means-unique equal concurrent a b h k = absurd (k.0 h.0)
Means-unique concurrent before a b h k = absurd (h.0 k.0)
Means-unique concurrent after a b h k = absurd (h.1 k.0)
Means-unique concurrent equal a b h k = absurd (h.0 k.0)

-- A clock is before itself incremented.
pub compare-increment : (p : String) (c : VectorClock) → compare c (increment p c) ≡ before
compare-increment p c = Means-unique _ before c (increment p c) (compare-Means c (increment p c)) (
  λ q. ground (arith, count-increment p q c, ==_iff p q),
  λ h. ground (arith, h p, count-increment p p c, ==_iff p p),
)

-- Swapping the clocks swaps the answer.
abbrev pub swap : Causality → Causality
swap before = after
swap after = before
swap c = c

Means-swap : (x : Causality) (a b : VectorClock) → Means x a b → Means (swap x) b a
Means-swap before a b h = h
Means-swap after a b h = h
Means-swap equal a b h = (h.1, h.0)
Means-swap concurrent a b h = (h.1, h.0)

-- To compare two clocks the other way round turns "before" and "after" around and nothing else.
pub compare-swap : (a b : VectorClock) → compare b a ≡ swap (compare a b)
compare-swap a b =
    Means-unique _ _ b a (compare-Means b a) (Means-swap (compare a b) a b (compare-Means a b))
