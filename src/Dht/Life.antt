-- ===== src/Dht/Life.antt =====
-- `PeerExists` after `Update`, and `CreateRoutingTable`, of p2p/dht/route_table.go.
use kkchain.Base.{
  ℕ, zero, suc, ◌*◌, ◌≤◌, ◌<◌, List, some, true, ◌==◌, length, get_elem?, ◌>>=◌, subst, some_inj,
  bind_some, ◌≡◌, refl, ap, ◌⊎◌, arith,
}
use kkchain.Dht.Defs.{
  PeerId, bucket_size, RoutingTable, bucket_has, bucket_id, bucket, update_peer, peer_exists,
  empty_buckets, create_routing_table,
}
use kkchain.Dht.Table.{Fits, IsValid, get_elem?-set_nth}
use kkchain.Dht.Update.{bucket_update_has, update_peer-IsValid}

-- After an Update, PeerExists finds the target: where the target has a public key of the table's
-- length and a bucket, and the bucket has at most 16 peers or had one that equals the target.
pub peer_exists-update_peer :
    (t : RoutingTable) (target : PeerId) (ps : List PeerId)
    → length t.self.public_key ≡ length target.public_key
    → bucket t (bucket_id t target) ≡ some ps
    → (length ps ≤ bucket_size) ⊎ (bucket_has target ps ≡ true)
    → (update_peer t target >>= λ t'. peer_exists t' target) ≡ some true
unfolding update_peer peer_exists bucket
peer_exists-update_peer t target ps k e h =
    let same : (length t.self.public_key == length target.public_key) ≡ true = ground (arith, k) in
    rw (same, e)
      (bind_some _ (get_elem?-set_nth t.buckets (bucket_id t target) _ ps e)
        (ap some (bucket_update_has target ps h)))

empty_buckets-Fits :
    (n i : ℕ) (ps : List PeerId) → get_elem? (empty_buckets n) i ≡ some ps → Fits ps
unfolding empty_buckets
empty_buckets-Fits zero i ps e = cc
empty_buckets-Fits (suc n) zero ps e =
    subst Fits (some_inj e) (record { small = omega arith; distinct = tt })
empty_buckets-Fits (suc n) (suc i) ps e = empty_buckets-Fits n i ps e

length-empty_buckets : (n : ℕ) → length (empty_buckets n) ≡ n
unfolding empty_buckets
length-empty_buckets zero = refl
length-empty_buckets (suc n) = ap suc (length-empty_buckets n)

pub empty_table-IsValid :
    (p : PeerId)
    → 0 < length p.hash
    → IsValid (record { self = p; buckets = empty_buckets (length p.hash * 8) })
empty_table-IsValid p h = record {
  bits = length-empty_buckets (length p.hash * 8);
  hash_len = h;
  fits = empty_buckets-Fits (length p.hash * 8);
}

-- A new routing table of a peer whose hash is not empty is made without a panic, and is valid.
pub create_routing_table-IsValid :
    (p : PeerId)
    → 0 < length p.hash
    → (t : RoutingTable) × (create_routing_table p ≡ some t) × IsValid t
unfolding create_routing_table
create_routing_table-IsValid p h =
    update_peer-IsValid (record { self = p; buckets = empty_buckets (length p.hash * 8) })
      (empty_table-IsValid p h) p refl
