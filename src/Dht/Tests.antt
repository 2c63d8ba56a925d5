-- ===== src/Dht/Tests.antt =====
-- A routing table over hashes of one byte.
use kkchain.Base.{List, length, ◌≤◌, [], ◌∷◌, some, Bool, true, ◌>>=◌, ◌≡◌, refl, inl, arith}
use kkchain.Dht.Defs.{
  PeerId, RoutingTable, update_peer, remove_peer, peer_exists, create_routing_table, bucket,
  bucket_id, empty_buckets, prefix_len, xor, xor_bytes, prefix_from, leading_zeros8,
}
use kkchain.Dht.Closest.{IsSorted, find_closest_peers, find_closest_peers-IsSorted}
use kkchain.Dht.Table.{IsValid}
use kkchain.Dht.Update.{update_peer-IsValid, remove_peer-IsValid}
use kkchain.Dht.Life.{peer_exists-update_peer, create_routing_table-IsValid, empty_table-IsValid}

abbrev home : PeerId
home = record { address = 1; public_key = 1 ∷ []; hash = 160 ∷ [] }

abbrev guest : PeerId
guest = record { address = 2; public_key = 2 ∷ []; hash = 161 ∷ [] }

abbrev table : RoutingTable
table = record { self = home; buckets = [] ∷ [] ∷ [] ∷ [] ∷ [] ∷ [] ∷ [] ∷ [] ∷ [] }

table-IsValid : IsValid table
table-IsValid = unfold empty_buckets in empty_table-IsValid home (omega arith)

create_routing_table-IsValid_example :
    (t : RoutingTable) × (create_routing_table home ≡ some t) × IsValid t
create_routing_table-IsValid_example = create_routing_table-IsValid home (omega arith)

update_peer-IsValid_example : (t : RoutingTable) × (update_peer table guest ≡ some t) × IsValid t
update_peer-IsValid_example = update_peer-IsValid table table-IsValid guest refl

remove_peer-IsValid_example :
    (t : RoutingTable) × (found : Bool) × (remove_peer table guest ≡ some (t, found))
    × (peer_exists table guest ≡ some found)
    × IsValid t
remove_peer-IsValid_example = remove_peer-IsValid table table-IsValid guest refl

guest-bucket : bucket table (bucket_id table guest) ≡ some []
unfolding bucket bucket_id xor xor_bytes prefix_len prefix_from leading_zeros8
guest-bucket = refl

peer_exists-update_peer_example : (update_peer table guest >>= λ t. peer_exists t guest) ≡ some true
peer_exists-update_peer_example =
    peer_exists-update_peer table guest [] refl guest-bucket (inl (omega arith))

find_closest_peers-IsSorted_example :
    (ps : List PeerId) × (find_closest_peers table guest 3 ≡ some ps)
    × (length ps ≤ 3)
    × IsSorted guest ps
find_closest_peers-IsSorted_example = find_closest_peers-IsSorted table table-IsValid guest 3 refl
