-- ===== src/AsyncComm/Peer/Candidates.antt =====
-- The candidates for a question to a tag.
use team_harness.Prelude.{
  String, ◌≡◌, refl, ◌∙◌, Bool, false, not, ◌&&◌, ◌||◌, List, [], ◌∷◌, contains, nonempty, ◌==◌,
  ==_iff, ==_refl, Distinct, arith, Bool-cases, inl, inr,
}
use team_harness.AsyncComm.Peer.Types.{PeerInfo}
use team_harness.AsyncComm.Peer.{with_tag, unique_candidates}

-- some peer with the id has the tag
abbrev pub has_tag : String → String → List PeerInfo → Bool
has_tag tag x [] = false
has_tag tag x (p ∷ ps) = (contains tag p.capabilities && (p.peer_id == x)) || has_tag tag x ps

contains-with_tag :
    (tag x : String) (ps : List PeerInfo)
    → contains x (with_tag tag ps) ≡ (has_tag tag x ps && nonempty x)
contains-with_tag tag x [] = refl
contains-with_tag tag x (p ∷ ps) = ground (arith, contains-with_tag tag x ps, ==_iff p.peer_id x)

contains-unique_candidates :
    (me x : String) (seen is : List String)
    → contains x (unique_candidates me seen is)
      ≡ (contains x is && (nonempty x && (not (contains x seen) && not (x == me))))
unfolding unique_candidates
contains-unique_candidates me x seen [] = refl
contains-unique_candidates me x seen (i ∷ is) = ground (
  arith,
  contains-unique_candidates me x (i ∷ seen) is,
  contains-unique_candidates me x seen is,
  ==_iff i x,
)

unique_candidates-Distinct :
    (me : String) (seen is : List String) → Distinct (unique_candidates me seen is)
unfolding unique_candidates
unique_candidates-Distinct me seen [] = tt
unique_candidates-Distinct me seen (i ∷ is) =
    elim (Bool-cases (nonempty i && (not (contains i seen) && not (i == me)))) [
      | inl keeps ↦ rw keeps (
        contains-unique_candidates me i (i ∷ seen) is ∙ ground (arith, ==_refl i),
        unique_candidates-Distinct me (i ∷ seen) is,
      )
      | inr drops ↦ rw drops (unique_candidates-Distinct me seen is)
    ]

-- The candidates for a tag are distinct, and they are exactly the peers with the tag whose id is
-- not empty and not the member's own.
pub unique_candidates-with_tag :
    (me tag : String) (ps : List PeerInfo)
    → let candidates = unique_candidates me [] (with_tag tag ps) in
      Distinct candidates
      × ((x : String) → contains x candidates ≡ (has_tag tag x ps && (nonempty x && not (x == me))))
unique_candidates-with_tag me tag ps = (
  unique_candidates-Distinct me [] (with_tag tag ps),
  λ x.
      ground
        (arith, contains-unique_candidates me x [] (with_tag tag ps), contains-with_tag tag x ps),
)
