-- ===== src/AsyncComm/Peer/Cache.antt =====
-- The cache of `PeerComm._is_peer_reachable`.
use team_harness.Prelude.{ℕ, ◌+◌, ◌<◌, suc, String, ◌≡◌, ◌≢◌, refl, Bool, none, some, arith}
use team_harness.Prelude.Dict
use team_harness.Prelude.Dict.{get-put_self, get-put_other}
use team_harness.Prelude.Result.{ok}
use team_harness.AsyncComm.Peer.Types.{Network, Peer}
use team_harness.AsyncComm.Peer.Asks.{
  still_valid, probe_and_cache, cached_or_probed, reachable_at, is_peer_reachable,
}

still_valid_fresh :
    (interval now at : ℕ) (b : Bool)
    → now < at + interval
    → still_valid interval now (some (b, at)) ≡ some b
still_valid_fresh interval now at b soon = ground arith

-- A probe that answers where the cache has nothing valid is one call of the transport. A second
-- question within the interval gets the same answer without a call, and the entries of the other
-- peers stay.
pub is_peer_reachable-once :
    (c : Network) (i : String) (b : Bool) (p : Peer)
    → still_valid c.network_check_interval (c.seconds p.second_at) (Dict.get i p.reachability)
      ≡ none
    → c.is_peer_reachable p.calls i ≡ ok b
    → c.seconds (suc p.second_at) < c.seconds p.second_at + c.network_check_interval
    → let q = (is_peer_reachable c i p).0 in
      ((is_peer_reachable c i p).1 ≡ ok b)
      × (q.calls ≡ suc p.calls)
      × (is_peer_reachable c i q ≡ (record q { second_at = suc q.second_at }, ok b))
      × ((k : String) → k ≢ i → Dict.get k q.reachability ≡ Dict.get k p.reachability)
unfolding is_peer_reachable reachable_at cached_or_probed probe_and_cache
is_peer_reachable-once c i b p old at soon =
    rw (old, at)
      (
        refl,
        refl,
        rw
            (
              get-put_self i (b, c.seconds p.second_at) p.reachability,
              still_valid_fresh c.network_check_interval (c.seconds (suc p.second_at))
                  (c.seconds p.second_at) b soon,
            )
            refl,
        λ k ne. get-put_other i k (b, c.seconds p.second_at) p.reachability ne,
      )
