-- ===== src/Dht/Closest.antt =====
-- `FindClosestPeers` of p2p/dht/route_table.go, for a count that is not negative. Of peers at the
-- same distance sort.Slice does not tell the order; they have the same hash.
use kkchain.Base.{
  ℕ, zero, suc, ◌+◌, ◌-◌, ◌*◌, ◌≤◌, ◌<◌, List, [], ◌∷◌, ◌++◌, Option, none, some, Bool, true, false,
  not, ◌&&◌, ◌||◌, ◌==◌, if◌then◌else◌, ltb, leb, length, take, ◌>>=◌, bind_some, Bool-cases, ◌≡◌,
  refl, inl, inr, arith,
}
use kkchain.Dht.Defs.{PeerId, bytes_less, less, xor, RoutingTable, bucket_id, bucket}
use kkchain.Dht.Table.{IsValid, bucket_id_lt, get_elem?-lt}

-- Whether the one peer is closer to the target than the other.
abbrev pub closer : PeerId → PeerId → PeerId → Bool
closer target p q = less (xor p target) (xor q target)

unfoldable pub insert_by_distance : PeerId → PeerId → List PeerId → List PeerId
insert_by_distance target p [] = p ∷ []
insert_by_distance target p (q ∷ qs) =
    let rest = insert_by_distance target p qs in if closer target p q then p ∷ q ∷ qs else q ∷ rest

unfoldable pub sort_by_distance : PeerId → List PeerId → List PeerId
unfolding insert_by_distance
sort_by_distance target [] = []
sort_by_distance target (p ∷ ps) = insert_by_distance target p (sort_by_distance target ps)

abbrev pub peers_below : RoutingTable → ℕ → ℕ → Option (List PeerId)
peers_below t id i = if leb i id then bucket t (id - i) else some []

abbrev pub peers_above : RoutingTable → ℕ → ℕ → Option (List PeerId)
peers_above t id i = if ltb (id + i) (length t.self.hash * 8) then bucket t (id + i) else some []

-- The loop over the buckets on both sides, which ends within as many rounds as there are buckets.
unfoldable pub gather : RoutingTable → ℕ → ℕ → ℕ → ℕ → List PeerId → Option (List PeerId)
gather t id count zero i peers = none
gather t id count (suc fuel) i peers =
    if ltb (length peers) count && (leb i id || ltb (id + i) (length t.self.hash * 8))
    then (peers_below t id i >>= λ below.
        peers_above t id i >>= λ above. gather t id count fuel (i + 1) (peers ++ below ++ above))
    else some peers

-- `FindClosestPeers`
unfoldable pub find_closest_peers : RoutingTable → PeerId → ℕ → Option (List PeerId)
unfolding gather sort_by_distance
find_closest_peers t target count =
    if not (length t.self.hash == length target.hash)
    then some []
    else (bucket t (bucket_id t target) >>= λ ps.
        gather t (bucket_id t target) count (length t.self.hash * 8 + 1) 1 ps >>= λ peers.
        some (take count (sort_by_distance target peers)))

-- No peer is closer than the one before it.
abbrev pub IsSorted : PeerId → List PeerId → Type 0
IsSorted target [] = Unit {0}
IsSorted target (p ∷ []) = Unit {0}
IsSorted target (p ∷ q ∷ ps) = (closer target q p ≡ false) × IsSorted target (q ∷ ps)

bytes_less_asym : (xs ys : List ℕ) → bytes_less xs ys ≡ true → bytes_less ys xs ≡ false
unfolding bytes_less
bytes_less_asym [] [] h = refl
bytes_less_asym [] (y ∷ ys) h = refl
bytes_less_asym (x ∷ xs) [] h = cc
bytes_less_asym (x ∷ xs) (y ∷ ys) h = ground (arith, h, bytes_less_asym xs ys)

closer_asym : (target p q : PeerId) → closer target p q ≡ true → closer target q p ≡ false
unfolding less
closer_asym target p q h = bytes_less_asym (xor p target).hash (xor q target).hash h

insert-IsSorted :
    (target p : PeerId) (ps : List PeerId)
    → IsSorted target ps
    → IsSorted target (insert_by_distance target p ps)
unfolding insert_by_distance
insert-IsSorted target p [] s = tt
insert-IsSorted target p (q ∷ []) s = elim (Bool-cases (closer target p q)) [
  | inl c ↦ rw c (closer_asym target p q c, tt)
  | inr c ↦ rw c (c, tt)
]
insert-IsSorted target p (q ∷ r ∷ ps) s = elim (Bool-cases (closer target p q)) [
  | inl c ↦ rw c (closer_asym target p q c, s)
  | inr c ↦
      let rest = insert-IsSorted target p (r ∷ ps) s.1 in
      elim (Bool-cases (closer target p r)) [
        | inl d ↦ rw (c, d) (c, (closer_asym target p r d, s.1))
        | inr d ↦ rw (c, d) (s.0, simp d at rest)
      ]
]

sort-IsSorted : (target : PeerId) (ps : List PeerId) → IsSorted target (sort_by_distance target ps)
unfolding sort_by_distance
sort-IsSorted target [] = tt
sort-IsSorted target (p ∷ ps) = insert-IsSorted target p _ (sort-IsSorted target ps)

take-IsSorted :
    (target : PeerId) (n : ℕ) (ps : List PeerId) → IsSorted target ps → IsSorted target (take n ps)
take-IsSorted target zero ps s = tt
take-IsSorted target (suc n) [] s = tt
take-IsSorted target (suc zero) (p ∷ []) s = tt
take-IsSorted target (suc (suc n)) (p ∷ []) s = tt
take-IsSorted target (suc zero) (p ∷ q ∷ ps) s = tt
take-IsSorted target (suc (suc n)) (p ∷ q ∷ ps) s = (s.0, take-IsSorted target (suc n) (q ∷ ps) s.1)

length-take : (n : ℕ) (ps : List PeerId) → length (take n ps) ≤ n
length-take zero ps = omega arith
length-take (suc n) [] = omega arith
length-take (suc n) (p ∷ ps) = omega (arith, length-take n ps)

module _ (t : RoutingTable) (v : IsValid t) where
  below_returns :
      (id i : ℕ) → id < length t.self.hash * 8 → (ps : List PeerId) × (peers_below t id i ≡ some ps)
  unfolding bucket
  below_returns id i h = elim (Bool-cases (leb i id)) [
    | inl l ↦
        let (ps, e) = get_elem?-lt t.buckets (id - i) (omega (arith, h, v.bits)) in (ps, rw l e)
    | inr l ↦ ([], rw l refl)
  ]

  above_returns : (id i : ℕ) → (ps : List PeerId) × (peers_above t id i ≡ some ps)
  unfolding bucket
  above_returns id i = elim (Bool-cases (ltb (id + i) (length t.self.hash * 8))) [
    | inl l ↦
        let (ps, e) = get_elem?-lt t.buckets (id + i) (ground (arith, l, v.bits)) in (ps, rw l e)
    | inr l ↦ ([], rw l refl)
  ]

  gather_returns :
      (id count fuel i : ℕ) (peers : List PeerId)
      → id < length t.self.hash * 8
      → fuel + i ≡ length t.self.hash * 8 + 2
      → i ≤ length t.self.hash * 8 + 1
      → (ps : List PeerId) × (gather t id count fuel i peers ≡ some ps)
  unfolding gather
  gather_returns id count zero i peers h e l = absurd (omega (arith, e, l))
  gather_returns id count (suc fuel) i peers h e l =
      let more = ltb (length peers) count && (leb i id || ltb (id + i) (length t.self.hash * 8)) in
      elim (Bool-cases more) [
        | inr n ↦ (peers, rw n refl)
        | inl m ↦
            let (a, ea) = below_returns id i h in
            let (b, eb) = above_returns id i in
            let (ps, r) =
              gather_returns id count fuel (i + 1) (peers ++ a ++ b) h (omega (arith, e))
                (ground (arith, m, h)) in
            (ps, rw m (bind_some _ ea (bind_some _ eb r)))
      ]

  -- For a valid table and a target with a hash as long as the table's own, FindClosestPeers does
  -- not panic and its loop ends within a round for each bucket; it returns at most as many peers as
  -- the count, and none of them is closer to the target than the one before it.
  pub find_closest_peers-IsSorted :
      (target : PeerId) (count : ℕ)
      → length target.hash ≡ length t.self.hash
      → (ps : List PeerId) × (find_closest_peers t target count ≡ some ps)
        × (length ps ≤ count)
        × IsSorted target ps
  unfolding find_closest_peers bucket
  find_closest_peers-IsSorted target count h =
      let id = bucket_id t target in
      let low : id < length t.self.hash * 8 =
        omega (arith, bucket_id_lt t target (omega (arith, h, v.hash_len)), h) in
      let (own, e) = get_elem?-lt t.buckets id (omega (arith, low, v.bits)) in
      let (all, g) =
        gather_returns id count (length t.self.hash * 8 + 1) 1 own low (omega arith)
          (omega arith) in
      let same : (length t.self.hash == length target.hash) ≡ true = ground (arith, h) in
      (
        take count (sort_by_distance target all),
        rw same (bind_some _ e (bind_some _ g refl)),
        length-take count (sort_by_distance target all),
        take-IsSorted target count (sort_by_distance target all) (sort-IsSorted target all),
      )
