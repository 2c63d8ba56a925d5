-- ===== src/Base/Lists.antt =====
-- Lists measured and cut by native numbers, and maps as functions.
use Prim.Native.Nat.{ℕ, zero, suc, ◌+◌}
use mathlib.Core.List.{List, [], ◌∷◌, ◌++◌, map}
use mathlib.Core.Option.{Option, none, some}
use mathlib.Core.Path.{◌≡◌, refl, ap, fun_ext}
use native.Mathlib.Omega.{arith}
use kkchain.Base.Tests.{◌==◌, if◌then◌else◌}

module _ {ℓ} {A : Type ℓ} where
  abbrev pub length : List A → ℕ
  length [] = 0
  length (x ∷ xs) = suc (length xs)

  abbrev pub take : ℕ → List A → List A
  take zero xs = []
  take (suc n) [] = []
  take (suc n) (x ∷ xs) = x ∷ take n xs

  abbrev pub drop : ℕ → List A → List A
  drop zero xs = xs
  drop (suc n) [] = []
  drop (suc n) (x ∷ xs) = drop n xs

  abbrev pub get_elem? : List A → ℕ → Option A
  get_elem? [] i = none
  get_elem? (x ∷ xs) zero = some x
  get_elem? (x ∷ xs) (suc i) = get_elem? xs i

  pub length-append : (xs ys : List A) → length (xs ++ ys) ≡ length xs + length ys
  length-append [] ys = omega arith
  length-append (x ∷ xs) ys = omega (arith, length-append xs ys)

  -- `xs[:len(xs)-1]`
  unfoldable pub drop_last : List A → List A
  drop_last [] = []
  drop_last (x ∷ []) = []
  drop_last (x ∷ y ∷ xs) = x ∷ drop_last (y ∷ xs)

  pub drop_last-append : (xs : List A) (x : A) → drop_last (xs ++ (x ∷ [])) ≡ xs
  unfolding drop_last
  drop_last-append [] x = refl
  drop_last-append (y ∷ []) x = refl
  drop_last-append (y ∷ z ∷ xs) x = ap (◌∷◌ y) (drop_last-append (z ∷ xs) x)

module _ {ℓ} {A : Type ℓ} where
  abbrev pub reverse : List A → List A
  reverse [] = []
  reverse (x ∷ xs) = reverse xs ++ (x ∷ [])

  pub take-append : (xs ys : List A) → take (length xs) (xs ++ ys) ≡ xs
  take-append [] ys = refl
  take-append (x ∷ xs) ys = ap (◌∷◌ x) (take-append xs ys)

  pub drop-append : (xs ys : List A) → drop (length xs) (xs ++ ys) ≡ ys
  drop-append [] ys = refl
  drop-append (x ∷ xs) ys = drop-append xs ys

  pub length-reverse : (xs : List A) → length (reverse xs) ≡ length xs
  length-reverse [] = refl
  length-reverse (x ∷ xs) = omega (arith, length-append (reverse xs) (x ∷ []), length-reverse xs)

  -- A list that is not empty has a last element.
  pub snoc :
      (xs : List A) (n : ℕ)
      → length xs ≡ suc n
      → (ys : List A) × (y : A) × (xs ≡ ys ++ (y ∷ [])) × (length ys ≡ n)
  snoc [] n h = absurd (omega (arith, h))
  snoc (x ∷ []) n h = ([], x, refl, omega (arith, h))
  snoc (x ∷ z ∷ xs) zero h = absurd (omega (arith, h))
  snoc (x ∷ z ∷ xs) (suc n) h =
      let (ys, y, e, l) = snoc (z ∷ xs) n (omega (arith, h)) in
      (x ∷ ys, y, ap (◌∷◌ x) e, omega (arith, l))

pub length-map {ℓ κ} :
    {A : Type ℓ} {B : Type κ} (f : A → B) (xs : List A) → length (map f xs) ≡ length xs
length-map f [] = refl
length-map f (x ∷ xs) = ap suc (length-map f xs)

pub map-append {ℓ κ} :
    {A : Type ℓ} {B : Type κ} (f : A → B) (xs ys : List A) → map f (xs ++ ys) ≡ map f xs ++ map f ys
map-append f [] ys = refl
map-append f (x ∷ xs) ys = ap (◌∷◌ (f x)) (map-append f xs ys)

-- A Go map as a function; the zero value or `none` stands for a missing key.
abbrev pub update {ℓ} : {V : Type ℓ} → (ℕ → V) → ℕ → V → ℕ → V
update m k v j = if j == k then v else m j

pub update_same {ℓ} : {V : Type ℓ} (m : ℕ → V) (k : ℕ) (v : V) → m k ≡ v → update m k v ≡ m
update_same m k v h = fun_ext (λ j. ground arith)

pub update_twice {ℓ} :
    {V : Type ℓ} (m : ℕ → V) (k : ℕ) (u v : V) → update (update m k u) k v ≡ update m k v
update_twice m k u v = fun_ext (λ j. ground arith)

pub update_back {ℓ} :
    {V : Type ℓ} (m : ℕ → V) (k : ℕ) (u v : V) → m k ≡ v → update (update m k u) k v ≡ m
update_back m k u v h = fun_ext (λ j. ground arith)

-- The list with the element at an index replaced.
unfoldable pub set_nth {ℓ} : {A : Type ℓ} → ℕ → A → List A → List A
set_nth n x [] = []
set_nth zero x (y ∷ ys) = x ∷ ys
set_nth (suc n) x (y ∷ ys) = y ∷ set_nth n x ys
