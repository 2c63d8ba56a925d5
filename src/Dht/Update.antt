-- ===== src/Dht/Update.antt =====
-- `Update` and `RemovePeer` of p2p/dht/route_table.go on well-formed tables.
use kkchain.Base.{
  set_nth, ◌+◌, ◌≤◌, List, [], ◌∷◌, none, some, Bool, true, false, not, ◌==◌, leb, length,
  Bool-cases, Option-cases, bind_some, ◌≡◌, refl, ap, ◌∙◌, ◌⊎◌, inl, inr, arith,
}
use kkchain.Dht.Defs.{
  PeerId, bucket_size, equals, RoutingTable, bucket_has, bucket_find, bucket_remove, bucket_update,
  bucket_id, bucket, update_peer, remove_peer, peer_exists,
}
use kkchain.Dht.Table.{
  Distinct, Fits, IsValid, bucket_id_lt, get_elem?-lt, length-set_nth, set_nth_all,
  bytes_equal_comm, equals_refl,
}

equals_comm : (p q : PeerId) → equals p q ≡ equals q p
unfolding equals
equals_comm p q =
    rw (bytes_equal_comm p.public_key q.public_key, bytes_equal_comm p.hash q.hash) refl

remove_absent :
    (target q : PeerId) (ps : List PeerId)
    → bucket_has q ps ≡ false
    → bucket_has q (bucket_remove target ps) ≡ false
unfolding bucket_has bucket_remove
remove_absent target q [] h = refl
remove_absent target q (p ∷ ps) h = ground (arith, h, remove_absent target q ps)

remove-Distinct :
    (target : PeerId) (ps : List PeerId) → Distinct ps → Distinct (bucket_remove target ps)
unfolding bucket_remove
remove-Distinct target [] d = tt
remove-Distinct target (p ∷ ps) d = elim (Bool-cases (equals p target)) [
  | inl e ↦ rw e d.1
  | inr e ↦ rw e (remove_absent target p ps d.0, remove-Distinct target ps d.1)
]

remove_length : (target : PeerId) (ps : List PeerId) → length (bucket_remove target ps) ≤ length ps
unfolding bucket_remove
remove_length target [] = omega arith
remove_length target (p ∷ ps) = elim (Bool-cases (equals p target)) [
  | inl e ↦ rw e (omega arith)
  | inr e ↦ rw e (omega (arith, remove_length target ps))
]

-- What the search of a bucket finds.
pub record Finds (target : PeerId) (ps : List PeerId) (p : PeerId) : Type 0 where
  pub matches : equals p target ≡ true
  pub shorter : 1 + length (bucket_remove target ps) ≤ length ps
  pub gone : Distinct ps → bucket_has p (bucket_remove target ps) ≡ false

remove_found_absent :
    (target p q : PeerId) (ps : List PeerId)
    → equals q p ≡ false
    → bucket_has p (bucket_remove target ps) ≡ false
    → bucket_has p (q ∷ bucket_remove target ps) ≡ false
unfolding bucket_has
remove_found_absent target p q ps h g = rw (h, g) refl

find_found :
    (target q : PeerId) (ps : List PeerId) (p : PeerId)
    → bucket_find target ps ≡ some p
    → bucket_has q ps ≡ false
    → equals p q ≡ false
unfolding bucket_find bucket_has
find_found target q [] p e h = cc
find_found target q (r ∷ ps) p e h = elim (Bool-cases (equals r target)) [
  | inl m ↦ ground (arith, e, h, m)
  | inr m ↦ ground (arith, e, h, m, find_found target q ps p)
]

find-Finds :
    (target : PeerId) (ps : List PeerId) (p : PeerId)
    → bucket_find target ps ≡ some p
    → Finds target ps p
unfolding bucket_find bucket_remove bucket_has
find-Finds target [] p e = cc
find-Finds target (q ∷ ps) p e = elim (Bool-cases (equals q target)) [
  | inl m ↦ record {
    matches = ground (arith, e, m);
    shorter = rw m (omega arith);
    gone = λ d. ground (arith, d.0, e, m);
  }
  | inr m ↦
      let e' : bucket_find target ps ≡ some p = ground (arith, e, m) in
      let rest = find-Finds target ps p e' in
      record {
        matches = rest.matches;
        shorter = rw m (omega (arith, rest.shorter));
        gone = λ d. rw m (
            remove_found_absent target p q ps (equals_comm q p ∙ find_found target q ps p e' d.0)
              (rest.gone d.1));
      }
]

find_none :
    (target : PeerId) (ps : List PeerId)
    → bucket_find target ps ≡ none
    → bucket_has target ps ≡ false
unfolding bucket_find bucket_has
find_none target [] e = refl
find_none target (q ∷ ps) e = ground (arith, e, find_none target ps)

bucket_update-Fits : (target : PeerId) (ps : List PeerId) → Fits ps → Fits (bucket_update target ps)
unfolding bucket_update
bucket_update-Fits target ps f = elim (Option-cases (bucket_find target ps)) [
  | inl e ↦ elim (Bool-cases (leb (length ps) bucket_size)) [
    | inl l ↦
        rw (e, l)
          (record { small = ground (arith, l); distinct = (find_none target ps e, f.distinct) })
    | inr l ↦ rw (e, l) f
  ]
  | inr (p, e) ↦
      let found = find-Finds target ps p e in
      rw e (record {
        small = omega (arith, found.shorter, f.small);
        distinct = (found.gone f.distinct, remove-Distinct target ps f.distinct);
      })
]

-- A bucket that has room, or that has the target, has it after the update, at the front.
pub bucket_update_has :
    (target : PeerId) (ps : List PeerId)
    → (length ps ≤ bucket_size) ⊎ (bucket_has target ps ≡ true)
    → bucket_has target (bucket_update target ps) ≡ true
unfolding bucket_update bucket_has
bucket_update_has target ps h = elim (Option-cases (bucket_find target ps)) [
  | inl e ↦ rw e (ground (arith, h, find_none target ps e, equals_refl target))
  | inr (p, e) ↦ rw e (ground (arith, (find-Finds target ps p e).matches))
]

module _ (t : RoutingTable) (v : IsValid t) (target : PeerId) where
  -- The bucket of a target with a hash as long as the table's own.
  own_bucket :
      length target.hash ≡ length t.self.hash
      → (ps : List PeerId) × (bucket t (bucket_id t target) ≡ some ps) × Fits ps
  unfolding bucket
  own_bucket h =
      let (ps, e) =
        get_elem?-lt t.buckets (bucket_id t target)
          (omega (arith, bucket_id_lt t target (omega (arith, h, v.hash_len)), h, v.bits)) in
      (ps, e, v.fits (bucket_id t target) ps e)

  with_bucket :
      (ps : List PeerId)
      → Fits ps
      → IsValid (record t { buckets = set_nth (bucket_id t target) ps t.buckets })
  with_bucket ps f = record {
    bits = length-set_nth (bucket_id t target) ps t.buckets ∙ v.bits;
    hash_len = v.hash_len;
    fits = set_nth_all t.buckets (bucket_id t target) ps f v.fits;
  }

  -- For a valid table and a target with a hash as long as the table's own, Update does not panic,
  -- and the table stays valid: a bucket for each bit of the hash, each with at most 17 peers, no
  -- two of them equal.
  pub update_peer-IsValid :
      length target.hash ≡ length t.self.hash
      → (t' : RoutingTable) × (update_peer t target ≡ some t') × IsValid t'
  unfolding update_peer
  update_peer-IsValid h =
      let (ps, e, f) = own_bucket h in
      elim (Bool-cases (not (length t.self.public_key == length target.public_key))) [
        | inl k ↦ (t, rw k refl, v)
        | inr k ↦ (
          _,
          rw k (bind_some _ e refl),
          with_bucket (bucket_update target ps) (bucket_update-Fits target ps f),
        )
      ]

  -- For a valid table and a target with a hash as long as the table's own, RemovePeer does not
  -- panic, answers whether a peer equal to the target was there, as PeerExists does, and the table
  -- stays valid.
  pub remove_peer-IsValid :
      length target.hash ≡ length t.self.hash
      → (t' : RoutingTable) × (found : Bool) × (remove_peer t target ≡ some (t', found))
        × (peer_exists t target ≡ some found)
        × IsValid t'
  unfolding remove_peer peer_exists
  remove_peer-IsValid h =
      let (ps, e, f) = own_bucket h in
      let small : Fits (bucket_remove target ps) = record {
        small = omega (arith, remove_length target ps, f.small);
        distinct = remove-Distinct target ps f.distinct;
      } in
      elim (Bool-cases (bucket_has target ps)) [
        | inl k ↦
            (_, true, bind_some _ e (rw k refl), bind_some _ e (ap some k), with_bucket _ small)
        | inr k ↦ (t, false, bind_some _ e (rw k refl), bind_some _ e (ap some k), v)
      ]
