-- ===== src/AsyncComm/Snapshot/Expiry.antt =====
-- What `expire_stale` removes, and what it leaves.
use team_harness.Prelude.{
  ℕ, String, ◌≡◌, inl, inr, refl, sym, ap, ◌∙◌, Bool, true, false, ◌&&◌, ◌||◌, Option, none, List,
  [], ◌∷◌, arith, contains, ◌==◌, ==_iff, if◌then◌else◌, Bool-cases,
}
use team_harness.Prelude.Dict
use team_harness.Prelude.Dict.{Dict, get-remove, has-keys}
use team_harness.AsyncComm.Snapshot.{
  Snapshots, Files, is_stale, expire_loop, expire_stale, is_old, meta_of,
}

absorbed : (g same c : Bool) {r : Bool} → g ≡ false → r ≡ (c && g) → r ≡ ((same || c) && g)
absorbed g same c e h = ground (arith, e, h)

nested {ℓ} :
    {A : Type ℓ} (same c : Bool) (o : Option A)
    → (if c then none else (if same then none else o)) ≡ (if same || c then none else o)
nested true true o = refl
nested true false o = refl
nested false true o = refl
nested false false o = refl

module _ (f : Files) (now : String → ℕ) where
  -- the test of the loop's body
  abbrev goes : Snapshots → String → Bool
  goes s n = is_stale f (now n) s n && f.is_removable n

  abbrev without : String → Snapshots → Snapshots
  without n s = record s { dirs = Dict.remove n s.dirs }

  goes-without : (m n : String) (s : Snapshots) → (m == n) ≡ false → goes (without m s) n ≡ goes s n
  unfolding is_stale
  goes-without m n s differs =
      ap (λ o. is_old f (now n) s.ttl_days (meta_of o) && f.is_removable n)
        (get-remove m n s.dirs ∙ rw differs refl)

  -- the names that the loop returns
  contains-expire_loop :
      (ns : List String) (s : Snapshots) (n : String)
      → contains n (expire_loop f now ns s).1 ≡ (contains n ns && goes s n)
  unfolding expire_loop
  contains-expire_loop [] s n = refl
  contains-expire_loop (m ∷ ns) s n = elim (Bool-cases (goes s m)) [
    | inr stays ↦ elim (Bool-cases (m == n)) [
      | inl same ↦
          absorbed (goes s n) (m == n) (contains n ns)
            (ap (goes s) (sym ((==_iff m n).0 same)) ∙ stays)
            (rw stays (contains-expire_loop ns s n))
      | inr differs ↦ rw (stays, differs) (contains-expire_loop ns s n)
    ]
    | inl gone ↦ elim (Bool-cases (m == n)) [
      | inl same ↦ rw (gone, same) (sym (ap (goes s) (sym ((==_iff m n).0 same)) ∙ gone))
      | inr differs ↦
          rw (gone, differs)
            (contains-expire_loop ns (without m s) n ∙ rw (goes-without m n s differs) refl)
    ]
  ]

  get-expire_loop :
      (ns : List String) (s : Snapshots) (n : String)
      → Dict.get n (expire_loop f now ns s).0.dirs
        ≡ (if contains n (expire_loop f now ns s).1 then none else Dict.get n s.dirs)
  unfolding expire_loop
  get-expire_loop [] s n = refl
  get-expire_loop (m ∷ ns) s n = elim (Bool-cases (goes s m)) [
    | inr stays ↦ rw stays (get-expire_loop ns s n)
    | inl gone ↦ rw gone (
        get-expire_loop ns (without m s) n
        ∙ rw (get-remove m n s.dirs) (
            nested (m == n) (contains n (expire_loop f now ns (without m s)).1)
              (Dict.get n s.dirs)))
  ]

  -- `expire_stale` returns exactly the peers whose directory is there, is stale and can be removed;
  -- those directories are gone, and every other one is as before.
  pub expire_stale-get :
      (s : Snapshots) (n : String)
      → let (after, expired) = expire_stale f now s in
        (contains n expired ≡ (Dict.has n s.dirs && (is_stale f (now n) s n && f.is_removable n)))
        × (Dict.get n after.dirs ≡ (if contains n expired then none else Dict.get n s.dirs))
  unfolding expire_stale
  expire_stale-get s n = (
    contains-expire_loop (Dict.keys s.dirs) s n ∙ ap (λ t. t && goes s n) (sym (has-keys n s.dirs)),
    get-expire_loop (Dict.keys s.dirs) s n,
  )
