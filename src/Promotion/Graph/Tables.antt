-- ===== src/Promotion/Graph/Tables.antt =====
-- The node table: what is registered is found, once.
use Prim.Native.String.{◌++◌ as str_append}
use team_harness.Prelude.{
  String, ◌≡◌, ◌⊎◌, inl, inr, refl, sym, ap, ◌∙◌, true, false, Option, none, some, is_some, List,
  [], ◌∷◌, ◌++◌, arith, contains, ◌==◌, ==_iff, if◌then◌else◌, Bool-cases, Option-cases, Distinct,
  Distinct-snoc,
}
use team_harness.Prelude.Result.{ok, raise}
use team_harness.Promotion.Graph.Types.{GraphNode, GraphFile}
use team_harness.Promotion.Graph.{
  replace_node, register_node, find_node, get_node, update_node_status,
}

abbrev pub node_ids : List GraphNode → List String
node_ids [] = []
node_ids (n ∷ ns) = n.node_id ∷ node_ids ns

-- o.map(f)
abbrev mapped : (GraphNode → GraphNode) → Option GraphNode → Option GraphNode
mapped f none = none
mapped f (some n) = some (f n)

-- what `replace_node` does to lookups
abbrev Replaced :
    String → (GraphNode → GraphNode) → List GraphNode → Option (List GraphNode) → Type 0
Replaced i f ns none = find_node i ns ≡ none
Replaced i f ns (some ns') =
    (is_some (find_node i ns) ≡ true)
    × (node_ids ns' ≡ node_ids ns)
    × ((j : String)
        → find_node j ns' ≡ (if i == j then mapped f (find_node i ns) else find_node j ns))

module _ (i : String) (f : GraphNode → GraphNode) where
  Replaced-more :
      (n : GraphNode) (ns : List GraphNode) (o : Option (List GraphNode))
      → (n.node_id == i) ≡ false
      → Replaced i f ns o
      → Replaced i f (n ∷ ns) (elim o [ none ↦ none | some ns' ↦ some (n ∷ ns') ])
  unfolding find_node
  Replaced-more n ns none past h = ground (arith, h)
  Replaced-more n ns (some ns') past (found, ids, lookup) = (
    ground arith,
    ap (λ is. n.node_id ∷ is) ids,
    λ j. ground (arith, lookup j, ==_iff n.node_id j, ==_iff n.node_id i, ==_iff i j),
  )

  replace_node-Replaced :
      ((n : GraphNode) → (n.node_id ≡ i) → (f n).node_id ≡ i)
      → (ns : List GraphNode) → Replaced i f ns (replace_node i f ns)
  unfolding replace_node find_node
  replace_node-Replaced keeps [] = refl
  replace_node-Replaced keeps (n ∷ ns) = elim (Bool-cases (n.node_id == i)) [
    | inl at ↦
        let is = (==_iff n.node_id i).0 at in
        rw at (
          ground arith,
          ap (λ j. j ∷ node_ids ns) (keeps n is ∙ sym is),
          λ j. ground (arith, keeps n is, ==_iff (f n).node_id j, ==_iff n.node_id j, ==_iff i j),
        )
    | inr past ↦
        rw past (Replaced-more n ns (replace_node i f ns) past (replace_node-Replaced keeps ns))
  ]

find_node-snoc :
    (j : String) (ns : List GraphNode) (n : GraphNode)
    → find_node n.node_id ns ≡ none
    → find_node j (ns ++ n ∷ []) ≡ (if n.node_id == j then some n else find_node j ns)
unfolding find_node
find_node-snoc j [] n new = refl
find_node-snoc j (x ∷ ns) n new = ground (
  arith,
  find_node-snoc j ns n,
  ==_iff x.node_id n.node_id,
  ==_iff n.node_id j,
  ==_iff x.node_id j,
)

is_some-find_node :
    (j : String) (ns : List GraphNode) → is_some (find_node j ns) ≡ contains j (node_ids ns)
unfolding find_node
is_some-find_node j [] = refl
is_some-find_node j (n ∷ ns) = ground (arith, is_some-find_node j ns)

node_ids-snoc :
    (ns : List GraphNode) (n : GraphNode) → node_ids (ns ++ n ∷ []) ≡ node_ids ns ++ n.node_id ∷ []
node_ids-snoc [] n = refl
node_ids-snoc (x ∷ ns) n = ap (λ is. x.node_id ∷ is) (node_ids-snoc ns n)

find_node-node_id :
    (i : String) (ns : List GraphNode) (n : GraphNode) → find_node i ns ≡ some n → n.node_id ≡ i
unfolding find_node
find_node-node_id i [] n h = absurd (cc)
find_node-node_id i (x ∷ ns) n h = ground (arith, find_node-node_id i ns n, ==_iff x.node_id i)

-- what an operation on the node `n.node_id` leaves
abbrev pub Registered : GraphNode → GraphFile → GraphFile → Type 0
Registered n g after =
    ((j : String) → get_node after j ≡ (if n.node_id == j then some n else get_node g j))
    × (after.relations ≡ g.relations)
    × (Distinct (node_ids g.nodes) → Distinct (node_ids after.nodes))

-- A registered node is found under its id, with all of its new fields; every other lookup and the
-- relations are as before, and an id that stood once at most still does.
pub register_node-Registered :
    (today : String) (n : GraphNode) (g : GraphFile) → Registered n g (register_node today n g)
unfolding register_node
register_node-Registered today n g =
    of (replace_node n.node_id (λ _. n) g.nodes) refl
      (replace_node-Replaced n.node_id (λ _. n) (λ _ _. refl) g.nodes)
  where
    of :
        (o : Option (List GraphNode))
        → replace_node n.node_id (λ _. n) g.nodes ≡ o
        → Replaced n.node_id (λ _. n) g.nodes o
        → Registered n g (register_node today n g)
    of none e new =
        rw (e, register_node)
          (
            λ j. find_node-snoc j g.nodes n new,
            refl,
            λ d. rw (node_ids-snoc g.nodes n) (
                Distinct-snoc n.node_id (node_ids g.nodes)
                  (sym (is_some-find_node n.node_id g.nodes) ∙ ap is_some new) d),
          )
    of (some ns) e (found, ids, lookup) =
        rw (e, register_node) (λ j. ground (arith, lookup j), refl, λ d. rw ids d)

-- `update_node_status` raises exactly on an unknown node, and the file is then as before. On a
-- known one it changes the status alone, of that node alone.
pub update_node_status-Registered :
    (today i status : String) (g : GraphFile)
    → let out = update_node_status today i status g in
      ((get_node g i ≡ none)
        × (out.0 ≡ g)
        × (out.1 ≡ raise (str_append "节点 " (str_append i " 不存在"))))
      ⊎ ((n : GraphNode) × (get_node g i ≡ some n)
          × (out.1 ≡ ok tt)
          × Registered (record n { status = status }) g out.0)
unfolding update_node_status
update_node_status-Registered today i status g =
    of (replace_node i (λ n. record n { status = status }) g.nodes) refl
      (replace_node-Replaced i (λ n. record n { status = status }) (λ _ same. same) g.nodes)
  where
    of :
        (o : Option (List GraphNode))
        → replace_node i (λ n. record n { status = status }) g.nodes ≡ o
        → Replaced i (λ n. record n { status = status }) g.nodes o
        → let out = update_node_status today i status g in
          ((get_node g i ≡ none)
            × (out.0 ≡ g)
            × (out.1 ≡ raise (str_append "节点 " (str_append i " 不存在"))))
          ⊎ ((n : GraphNode) × (get_node g i ≡ some n)
              × (out.1 ≡ ok tt)
              × Registered (record n { status = status }) g out.0)
    of none e new = inl (rw (e, update_node_status) (new, refl, refl))
    of (some ns) e (found, ids, lookup) = elim (Option-cases (find_node i g.nodes)) [
      | inl absent ↦ absurd (cc)
      | inr (n, at) ↦
          let is = find_node-node_id i g.nodes n at in
          inr (
            rw (e, update_node_status)
              (n, at, refl, (λ j. ground (arith, lookup j, at, is), refl, λ d. rw ids d)))
    ]
