-- ===== src/AsyncComm/Resolver.antt =====
-- `ConflictResolver` of server/async_comm/conflict_resolver.py. A similarity is an exact fraction:
-- the source divides two set sizes. `str.lower` and the printing of a float are parameters.
pub mod Similarity
pub mod Decisions
use Prim.Native.Char.{code}
use Prim.Native.String
use Prim.Native.String.{◌++◌ as str_append}
use team_harness.Prelude.{
  ℕ, zero, suc, ◌+◌, ◌*◌, String, Bool, true, false, not, ◌&&◌, ◌||◌, Option, none, some, List, [],
  ◌∷◌, map, leb, eqb, length, nonempty, if◌then◌else◌,
}
use team_harness.Prelude.Dict
use team_harness.Prelude.Dict.{Dict}
use team_harness.Prelude.Result.{Result, ok, raise}
use team_harness.AsyncComm.Types.{get_or}

-- num / den
pub record Ratio : Type 0 where
  pub num : ℕ
  pub den : ℕ

-- a <= b
unfoldable pub ratio_le : Ratio → Ratio → Bool
ratio_le a b = leb (a.num * b.den) (b.num * a.den)

abbrev pub default_auto_confirm_threshold : Ratio
default_auto_confirm_threshold = record { num = 8; den = 10 }

abbrev pub default_conflict_threshold : Ratio
default_conflict_threshold = record { num = 3; den = 10 }

-- what the module takes from Python's `str` and `format`
pub record Strings : Type 0 where
  pub lower : String → String
  -- f"{x:.4f}" and f"{x}"
  pub fixed4 : Ratio → String
  pub shown : Ratio → String

abbrev pub codes : String → List ℕ
codes String.[] = []
codes (String.◌∷◌ c s) = code c ∷ codes s

-- x in xs
abbrev pub member : ℕ → List ℕ → Bool
member x [] = false
member x (y ∷ ys) = eqb y x || member x ys

-- set(xs): each element once
unfoldable pub set_of : List ℕ → List ℕ
set_of [] = []
set_of (x ∷ xs) = let rest = set_of xs in if member x rest then rest else x ∷ rest

-- len(a & b)
unfoldable pub size_both : List ℕ → List ℕ → ℕ
size_both [] bs = 0
size_both (a ∷ as_) bs = (if member a bs then 1 else 0) + size_both as_ bs

-- the elements of `bs` that are not in `as_`
unfoldable pub size_only : List ℕ → List ℕ → ℕ
size_only as_ [] = 0
size_only as_ (b ∷ bs) = (if member b as_ then 0 else 1) + size_only as_ bs

-- len(a | b)
abbrev pub size_any : List ℕ → List ℕ → ℕ
size_any as_ bs = length as_ + size_only as_ bs

abbrev pub is_empty : List ℕ → Bool
is_empty [] = true
is_empty (x ∷ xs) = false

-- the Jaccard coefficient of two sets
unfoldable pub jaccard : List ℕ → List ℕ → Ratio
jaccard as_ bs =
    if is_empty as_ && is_empty bs
    then record { num = 1; den = 1 }
    else if is_empty as_ || is_empty bs
    then record { num = 0; den = 1 }
    else record { num = size_both as_ bs; den = size_any as_ bs }

unfoldable pub default_similarity : Strings → String → String → Ratio
unfolding set_of
default_similarity py a b = jaccard (set_of (codes (py.lower a))) (set_of (codes (py.lower b)))

pub data Decision : Type 0 where
  confirmed revised needs_human_review : Decision

pub record ConflictResolver : Type 0 where
  pub auto_confirm_threshold : Ratio
  pub conflict_threshold : Ratio
  pub similarity_func : String → String → Ratio

-- __init__
unfoldable pub new_resolver :
    Strings → Ratio → Ratio → Option (String → String → Ratio) → Result ConflictResolver
new_resolver py auto_confirm conflict similarity =
    if ratio_le auto_confirm conflict
    then raise "auto_confirm_threshold must be greater than conflict_threshold"
    else ok (record {
      auto_confirm_threshold = auto_confirm;
      conflict_threshold = conflict;
      similarity_func = get_or similarity (default_similarity py);
    })

-- _decide
unfoldable pub decide : ConflictResolver → Ratio → Decision
decide r s =
    if ratio_le r.auto_confirm_threshold s
    then confirmed
    else if ratio_le s r.conflict_threshold
    then needs_human_review
    else revised

abbrev reason : Strings → ConflictResolver → Decision → String
reason py r confirmed =
    str_append "auto_confirmed (threshold=" (str_append (py.shown r.auto_confirm_threshold) ")")
reason py r needs_human_review =
    str_append "needs_human_review (threshold=" (str_append (py.shown r.conflict_threshold) ")")
reason py r revised = str_append "revised (auto_confirm=" (
    str_append (py.shown r.auto_confirm_threshold)
      (str_append ", conflict=" (str_append (py.shown r.conflict_threshold) ")")))

-- _format_note
unfoldable pub format_note : Strings → ConflictResolver → Decision → Ratio → String → String
format_note py r d s event_id =
    let note =
      str_append "similarity=" (str_append (py.fixed4 s) (str_append ", " (reason py r d))) in
    if nonempty event_id
    then str_append "event_id=" (str_append event_id (str_append ", " note))
    else note

abbrev pub decision_text : Decision → String
decision_text confirmed = "confirmed"
decision_text revised = "revised"
decision_text needs_human_review = "needs_human_review"

unfoldable pub resolve : Strings → ConflictResolver → String → String → String → String × String
unfolding decide format_note
resolve py r simulated real event_id =
    let s = r.similarity_func simulated real in
    let d = decide r s in (decision_text d, format_note py r d s event_id)

pub record ResolutionResult : Type 0 where
  pub decision : Decision
  pub similarity : Ratio
  pub note : String

unfoldable pub resolve_with_detail :
    Strings → ConflictResolver → String → String → String → ResolutionResult
unfolding decide format_note
resolve_with_detail py r simulated real event_id =
    let s = r.similarity_func simulated real in
    let d = decide r s in
    record { decision = d; similarity = s; note = format_note py r d s event_id }

-- item.get(key, "")
abbrev item_get : String → Dict String → String
item_get k item = get_or (Dict.get k item) ""

unfoldable pub batch_resolve :
    Strings → ConflictResolver → List (Dict String) → List ResolutionResult
unfolding resolve_with_detail
batch_resolve py r [] = []
batch_resolve py r (item ∷ items) =
    resolve_with_detail py r (item_get "simulated_answer" item) (item_get "real_answer" item)
      (item_get "event_id" item)
    ∷ batch_resolve py r items
