-- ===== src/Dht/Table.antt =====
-- The well-formedness of a routing table of p2p/dht/route_table.go, and lemmas on lists and hashes.
use kkchain.Base.{
  set_nth, ℕ, zero, suc, ◌+◌, ◌*◌, ◌≤◌, ◌<◌, List, [], ◌∷◌, some, true, false, ◌==◌, length,
  get_elem?, Bool-cases, some_inj, subst, ◌≡◌, refl, ap, inl, inr, arith,
}
use kkchain.Dht.Defs.{
  PeerId, bucket_size, equals, bytes_equal, xor_bytes, xor, leading_zeros8, prefix_from, prefix_len,
  RoutingTable, bucket_has, bucket_id,
}

-- No two elements of a bucket are equal peers.
abbrev pub Distinct : List PeerId → Type 0
Distinct [] = Unit {0}
Distinct (p ∷ ps) = (bucket_has p ps ≡ false) × Distinct ps

-- A bucket with at most one element over its size, and no two equal peers.
pub record Fits (ps : List PeerId) : Type 0 where
  pub small : length ps ≤ bucket_size + 1
  pub distinct : Distinct ps

-- A table with a bucket for each bit of its hash, all of which fit.
pub record IsValid (t : RoutingTable) : Type 0 where
  pub bits : length t.buckets ≡ length t.self.hash * 8
  pub hash_len : 0 < length t.self.hash
  pub fits : (i : ℕ) (ps : List PeerId) → get_elem? t.buckets i ≡ some ps → Fits ps

leading_zeros8_le : (b : ℕ) → (b == 0) ≡ false → leading_zeros8 b ≤ 7
unfolding leading_zeros8
leading_zeros8_le b h = ground arith

prefix_from_le :
    (whole i n : ℕ) (bs : List ℕ)
    → whole < n * 8
    → i + length bs ≤ n
    → prefix_from whole i bs < n * 8
unfolding prefix_from
prefix_from_le whole i n [] w h = w
prefix_from_le whole i n (b ∷ bs) w h = elim (Bool-cases (b == 0)) [
  | inl z ↦ rw z (prefix_from_le whole (1 + i) n bs w (omega (arith, h)))
  | inr z ↦ rw z (omega (arith, leading_zeros8_le b z, h))
]

length-xor_bytes : (xs ys : List ℕ) → length (xor_bytes xs ys) ≡ length xs
unfolding xor_bytes
length-xor_bytes [] ys = refl
length-xor_bytes (x ∷ xs) [] = ap suc (length-xor_bytes xs [])
length-xor_bytes (x ∷ xs) (y ∷ ys) = ap suc (length-xor_bytes xs ys)

-- The bucket of a peer is below the number of the bits of its hash.
pub bucket_id_lt :
    (t : RoutingTable) (target : PeerId)
    → 0 < length target.hash
    → bucket_id t target < length target.hash * 8
unfolding bucket_id xor prefix_len
bucket_id_lt t target h =
    let n = length-xor_bytes target.hash t.self.hash in
    prefix_from_le _ 0 (length target.hash) (xor_bytes target.hash t.self.hash)
      (omega (arith, n, h)) (omega (arith, n))

pub get_elem?-lt {ℓ} :
    {A : Type ℓ} (xs : List A) (i : ℕ) → i < length xs → (x : A) × (get_elem? xs i ≡ some x)
get_elem?-lt [] i h = absurd (omega (arith, h))
get_elem?-lt (x ∷ xs) zero h = (x, refl)
get_elem?-lt (x ∷ xs) (suc i) h = get_elem?-lt xs i (omega (arith, h))

pub length-set_nth {ℓ} :
    {A : Type ℓ} (i : ℕ) (x : A) (xs : List A) → length (set_nth i x xs) ≡ length xs
unfolding set_nth
length-set_nth i x [] = refl
length-set_nth zero x (y ∷ ys) = refl
length-set_nth (suc i) x (y ∷ ys) = ap suc (length-set_nth i x ys)

-- What stands in a list after an element is replaced.
pub set_nth_all {ℓ} :
    {A : Type ℓ} {P : A → Type 0} (xs : List A) (i : ℕ) (x : A)
    → P x
    → ((j : ℕ) (y : A) → get_elem? xs j ≡ some y → P y)
    → (j : ℕ) (y : A) → get_elem? (set_nth i x xs) j ≡ some y
    → P y
unfolding set_nth
set_nth_all [] i x p h j y e = h j y e
set_nth_all {P = P} (z ∷ zs) zero x p h zero y e = subst P (some_inj e) p
set_nth_all (z ∷ zs) zero x p h (suc j) y e = h (suc j) y e
set_nth_all (z ∷ zs) (suc i) x p h zero y e = h zero y e
set_nth_all (z ∷ zs) (suc i) x p h (suc j) y e = set_nth_all zs i x p (λ k w q. h (suc k) w q) j y e

pub get_elem?-set_nth {ℓ} :
    {A : Type ℓ} (xs : List A) (i : ℕ) (x y : A)
    → get_elem? xs i ≡ some y
    → get_elem? (set_nth i x xs) i ≡ some x
unfolding set_nth
get_elem?-set_nth [] i x y e = cc
get_elem?-set_nth (z ∷ zs) zero x y e = refl
get_elem?-set_nth (z ∷ zs) (suc i) x y e = get_elem?-set_nth zs i x y e

-- Bytes are equal when they are, in either order.
pub bytes_equal_comm : (xs ys : List ℕ) → bytes_equal xs ys ≡ bytes_equal ys xs
unfolding bytes_equal
bytes_equal_comm [] [] = refl
bytes_equal_comm [] (y ∷ ys) = refl
bytes_equal_comm (x ∷ xs) [] = refl
bytes_equal_comm (x ∷ xs) (y ∷ ys) = ground (arith, bytes_equal_comm xs ys)

pub bytes_equal_refl : (xs : List ℕ) → bytes_equal xs xs ≡ true
unfolding bytes_equal
bytes_equal_refl [] = refl
bytes_equal_refl (x ∷ xs) = ground (arith, bytes_equal_refl xs)

pub equals_refl : (p : PeerId) → equals p p ≡ true
unfolding equals
equals_refl p = rw (bytes_equal_refl p.public_key) refl
