-- ===== src/Index/Reconcile/Scan.antt =====
-- The rows that `list_null_embedding` of server/infra_db/asset_index.py lists.
use team_harness.Prelude.{
  ℕ, suc, ◌≤◌, ◌≡◌, refl, ap, ◌∙◌, String, Bool, true, some, [], ◌∷◌, select, take_all, length,
  length-select-le, contains, ◌==◌, ==_iff, arith, Bool-cases, inl, inr,
}
use team_harness.Prelude.Dict
use team_harness.Prelude.Dict.{Dict, keys}
use team_harness.Outbox.Tables.{AssetIndex, Database}
use team_harness.Index.Types.{Platform, insert_by_indexed, order_by_indexed}
use team_harness.Index.Query.{is_stale_null, null_rows}

contains-insert_by_indexed :
    (k : String) (x : String × AssetIndex) (xs : Dict AssetIndex)
    → contains k (keys (insert_by_indexed x xs)) ≡ (contains k (keys (x ∷ xs)))
unfolding insert_by_indexed
contains-insert_by_indexed k x [] = refl
contains-insert_by_indexed k x (y ∷ ys) = ground (arith, contains-insert_by_indexed k x ys)

contains-order_by_indexed :
    (k : String) (xs : Dict AssetIndex)
    → contains k (keys (order_by_indexed xs)) ≡ contains k (keys xs)
unfolding order_by_indexed
contains-order_by_indexed k [] = refl
contains-order_by_indexed k (x ∷ xs) =
    ground
      (arith, contains-insert_by_indexed k x (order_by_indexed xs), contains-order_by_indexed k xs)

length-insert_by_indexed :
    (x : String × AssetIndex) (xs : Dict AssetIndex)
    → length (insert_by_indexed x xs) ≡ suc (length xs)
unfolding insert_by_indexed
length-insert_by_indexed x [] = refl
length-insert_by_indexed x (y ∷ ys) = ground (arith, length-insert_by_indexed x ys)

length-order_by_indexed : (xs : Dict AssetIndex) → length (order_by_indexed xs) ≡ length xs
unfolding order_by_indexed
length-order_by_indexed [] = refl
length-order_by_indexed (x ∷ xs) =
    omega (arith, length-insert_by_indexed x (order_by_indexed xs), length-order_by_indexed xs)

-- the row that is found under a key stands in the selection, where it passes the test
contains-select_row :
    (f : String × AssetIndex → Bool) (k : String) (row : AssetIndex) (d : Dict AssetIndex)
    → Dict.get k d ≡ some row
    → f (k, row) ≡ true
    → contains k (keys (select f d)) ≡ true
unfolding Dict.get
contains-select_row f k row [] at holds = absurd (cc)
contains-select_row f k row ((j, r) ∷ d) at holds = elim (Bool-cases (j == k)) [
  | inl same ↦ let here : f (j, r) ≡ true = ground (arith, ==_iff j k) in rw here (rw same refl)
  | inr other ↦ ground (arith, contains-select_row f k row d)
]

-- a limit that the table fits in lists each row that is stale and has no vector
pub contains-null_rows :
    (p : Platform) (stale_seconds limit : ℕ) (k : String) (row : AssetIndex) (db : Database)
    → length db.assets ≤ limit
    → Dict.get k db.assets ≡ some row
    → is_stale_null p (p.clock db.time_at) stale_seconds row ≡ true
    → contains k (keys (null_rows p stale_seconds limit db)) ≡ true
unfolding null_rows
contains-null_rows p stale_seconds limit k row db enough at holds =
    let f : String × AssetIndex → Bool =
      λ (x : String × AssetIndex). is_stale_null p (p.clock db.time_at) stale_seconds x.1 in
    let fits : length (order_by_indexed (select f db.assets)) ≤ limit =
      omega (arith, length-order_by_indexed (select f db.assets), length-select-le f db.assets) in
    ap (λ xs. contains k (keys xs)) (take_all limit (order_by_indexed (select f db.assets)) fits)
    ∙ contains-order_by_indexed k (select f db.assets)
    ∙ contains-select_row f k row db.assets at holds
