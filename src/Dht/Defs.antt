-- ===== src/Dht/Defs.antt =====
-- `PeerID` of p2p/dht/peer.go and `RoutingTable` of p2p/dht/route_table.go. A bucket is the list of
-- its elements, the front first. `none` is the panic of a nil bucket. The mutexes and the log lines
-- are left out.
use kkchain.Base.{
  set_nth, ℕ, ◌+◌, ◌-◌, ◌*◌, List, [], ◌∷◌, ◌++◌, Option, none, some, Bool, true, false, not, ◌&&◌,
  ◌||◌, ◌==◌, zero, suc, if◌then◌else◌, ltb, leb, length, get_elem?, bit_xor, map, ◌>>=◌,
}

pub record PeerId : Type 0 where
  pub address : ℕ
  pub public_key : List ℕ
  pub hash : List ℕ

abbrev pub bucket_size : ℕ
bucket_size = 16

-- `bytes.Equal`
unfoldable pub bytes_equal : List ℕ → List ℕ → Bool
bytes_equal [] [] = true
bytes_equal [] (y ∷ ys) = false
bytes_equal (x ∷ xs) [] = false
bytes_equal (x ∷ xs) (y ∷ ys) = (x == y) && bytes_equal xs ys

-- `bytes.Compare(xs, ys) == -1`
unfoldable pub bytes_less : List ℕ → List ℕ → Bool
bytes_less xs [] = false
bytes_less [] (y ∷ ys) = true
bytes_less (x ∷ xs) (y ∷ ys) = ltb x y || ((x == y) && bytes_less xs ys)

-- `PeerID.Equals`
unfoldable pub equals : PeerId → PeerId → Bool
unfolding bytes_equal
equals p q = bytes_equal p.public_key q.public_key || bytes_equal p.hash q.hash

-- `PeerID.Less`
unfoldable pub less : PeerId → PeerId → Bool
unfolding bytes_less
less p q = bytes_less p.hash q.hash

-- The bytes of the first operand, xor those of the second; 0 past the end of the second.
unfoldable pub xor_bytes : List ℕ → List ℕ → List ℕ
xor_bytes [] ys = []
xor_bytes (x ∷ xs) [] = 0 ∷ xor_bytes xs []
xor_bytes (x ∷ xs) (y ∷ ys) = bit_xor x y ∷ xor_bytes xs ys

-- `PeerID.Xor`
unfoldable pub xor : PeerId → PeerId → PeerId
unfolding xor_bytes
xor p q = record p { hash = xor_bytes p.hash q.hash }

-- `bits.LeadingZeros8`
unfoldable pub leading_zeros8 : ℕ → ℕ
leading_zeros8 b =
    if leb 128 b
    then 0
    else if leb 64 b
    then 1
    else if leb 32 b
    then 2
    else if leb 16 b
    then 3
    else if leb 8 b
    then 4
    else if leb 4 b
    then 5
    else if leb 2 b
    then 6
    else if leb 1 b
    then 7
    else 8

-- The leading zeros of the bytes from the index `i` on; `whole` where all are 0.
unfoldable pub prefix_from : ℕ → ℕ → List ℕ → ℕ
unfolding leading_zeros8
prefix_from whole i [] = whole
prefix_from whole i (b ∷ bs) =
    let rest = prefix_from whole (1 + i) bs in if b == 0 then rest else i * 8 + leading_zeros8 b

-- `PeerID.PrefixLen`, of a hash that is not empty.
unfoldable pub prefix_len : PeerId → ℕ
unfolding prefix_from
prefix_len p = prefix_from (length p.hash * 8 - 1) 0 p.hash

pub record RoutingTable : Type 0 where
  pub self : PeerId
  pub buckets : List (List PeerId)

-- Whether a bucket has an element that equals the target.
unfoldable pub bucket_has : PeerId → List PeerId → Bool
bucket_has target [] = false
bucket_has target (p ∷ ps) = equals p target || bucket_has target ps

-- The first element that equals the target.
unfoldable pub bucket_find : PeerId → List PeerId → Option PeerId
bucket_find target [] = none
bucket_find target (p ∷ ps) =
    let rest = bucket_find target ps in if equals p target then some p else rest

-- The bucket without the first element that equals the target.
unfoldable pub bucket_remove : PeerId → List PeerId → List PeerId
bucket_remove target [] = []
bucket_remove target (p ∷ ps) =
    let rest = bucket_remove target ps in if equals p target then ps else p ∷ rest

abbrev pub put_front : PeerId → List PeerId → Option PeerId → List PeerId
put_front target ps (some p) = p ∷ bucket_remove target ps
put_front target ps none = if leb (length ps) bucket_size then target ∷ ps else ps

-- What `Update` does to the bucket: the element that equals the target moves to the front; without
-- one the target is pushed if there is room.
unfoldable pub bucket_update : PeerId → List PeerId → List PeerId
unfolding bucket_find bucket_remove
bucket_update target ps = put_front target ps (bucket_find target ps)

-- The bucket of a peer.
unfoldable pub bucket_id : RoutingTable → PeerId → ℕ
unfolding xor prefix_len
bucket_id t target = prefix_len (xor target t.self)

-- `Bucket`
unfoldable pub bucket : RoutingTable → ℕ → Option (List PeerId)
bucket t id = get_elem? t.buckets id

-- `Update`
unfoldable pub update_peer : RoutingTable → PeerId → Option RoutingTable
unfolding bucket_id bucket bucket_update set_nth
update_peer t target =
    if not (length t.self.public_key == length target.public_key)
    then some t
    else (bucket t (bucket_id t target) >>= λ ps.
        some
          (record t { buckets = set_nth (bucket_id t target) (bucket_update target ps) t.buckets }))

-- `RemovePeer`
unfoldable pub remove_peer : RoutingTable → PeerId → Option (RoutingTable × Bool)
unfolding bucket_id bucket bucket_has bucket_remove set_nth
remove_peer t target = bucket t (bucket_id t target) >>= λ ps.
    if bucket_has target ps
    then some (
      record t { buckets = set_nth (bucket_id t target) (bucket_remove target ps) t.buckets },
      true,
    )
    else some (t, false)

-- `PeerExists`
unfoldable pub peer_exists : RoutingTable → PeerId → Option Bool
unfolding bucket_id bucket bucket_has
peer_exists t target = bucket t (bucket_id t target) >>= λ ps. some (bucket_has target ps)

unfoldable pub empty_buckets : ℕ → List (List PeerId)
empty_buckets zero = []
empty_buckets (suc n) = [] ∷ empty_buckets n

-- `CreateRoutingTable`
unfoldable pub create_routing_table : PeerId → Option RoutingTable
unfolding update_peer empty_buckets
create_routing_table p =
    update_peer (record { self = p; buckets = empty_buckets (length p.hash * 8) }) p

unfoldable pub is_seen : List (List ℕ) → List ℕ → Bool
unfolding bytes_equal
is_seen [] key = false
is_seen (k ∷ ks) key = bytes_equal k key || is_seen ks key

-- The peers of the buckets in order, each public key once.
unfoldable pub unseen : List (List ℕ) → List PeerId → List PeerId
unfolding is_seen
unseen visited [] = []
unseen visited (p ∷ ps) =
    let fresh = unseen (p.public_key ∷ visited) ps in
    let rest = unseen visited ps in if is_seen visited p.public_key then rest else p ∷ fresh

unfoldable pub concat_buckets : List (List PeerId) → List PeerId
concat_buckets [] = []
concat_buckets (ps ∷ rest) = ps ++ concat_buckets rest

-- `GetPeers`
unfoldable pub get_peers : RoutingTable → List PeerId
unfolding unseen concat_buckets
get_peers t = unseen (t.self.public_key ∷ []) (concat_buckets t.buckets)

-- `GetPeerAddresses`
unfoldable pub get_peer_addresses : RoutingTable → List ℕ
unfolding get_peers
get_peer_addresses t = map (λ p. p.address) (get_peers t)
