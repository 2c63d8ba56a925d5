-- ===== src/Pool/Limits.antt =====
-- `Add` and `Filter` of core/tx_list.go and the caps on cost and gas.
use kkchain.Base.{
  ℕ, List, [], ◌∷◌, Option, none, some, true, false, ◌==◌, if◌then◌else◌, ltb, Bool-cases, ◌≡◌, ◌≢◌,
  refl, subst, inl, inr, arith, ℤ, ltb_ℤ,
}
use kkchain.Pool.SortedMap.{Transaction, cost, find_entry, put_entry, get, put}
use kkchain.Pool.Upkeep.{Inv, put-Inv}
use kkchain.Pool.TxList.{TxList, is_refused, add, is_costly}

-- No transaction costs more or has a higher gas limit.
abbrev pub Affords : ℤ → ℕ → List (ℕ × Transaction) → Type 0
Affords c g [] = Unit {0}
Affords c g (e ∷ es) = (is_costly c g e.1 ≡ false) × Affords c g es

pub record IsValid (l : TxList) : Type 0 where
  pub inv : Inv l.txs
  pub capped : Affords l.costcap l.gascap l.txs.items

pub Affords-mono :
    (c d : ℤ) (g h : ℕ) (es : List (ℕ × Transaction))
    → ltb_ℤ d c ≡ false
    → ltb h g ≡ false
    → Affords c g es
    → Affords d h es
Affords-mono c d g h [] x y a = tt
Affords-mono c d g h (e ∷ es) x y a = (ground (arith, x, y, a.0), Affords-mono c d g h es x y a.1)

put_entry-Affords :
    (c : ℤ) (g n : ℕ) (tx : Transaction) (es : List (ℕ × Transaction))
    → is_costly c g tx ≡ false
    → Affords c g es
    → Affords c g (put_entry n tx es)
unfolding put_entry
put_entry-Affords c g n tx [] h a = (h, tt)
put_entry-Affords c g n tx (e ∷ es) h a = elim (Bool-cases (e.0 == n)) [
  | inl x ↦ rw x (h, a.1)
  | inr x ↦ elim (Bool-cases (ltb n e.0)) [
    | inl y ↦ rw (x, y) (h, a)
    | inr y ↦ rw (x, y) (a.0, put_entry-Affords c g n tx es h a.1)
  ]
]

pub find_entry-put_entry :
    (n k : ℕ) (tx : Transaction) (es : List (ℕ × Transaction))
    → find_entry k (put_entry n tx es) ≡ (if n == k then some tx else find_entry k es)
unfolding find_entry put_entry
find_entry-put_entry n k tx [] = refl
find_entry-put_entry n k tx (e ∷ es) = ground (arith, find_entry-put_entry n k tx es)

-- The new cap covers the old transactions and the new one.
raised : (c d : ℤ) → let m = if ltb_ℤ c d then d else c in (ltb_ℤ m c ≡ false) × (ltb_ℤ m d ≡ false)
raised c d = elim (Bool-cases (ltb_ℤ c d)) [
  | inl l ↦ rw l (ground (arith, l), ground arith)
  | inr l ↦ rw l (ground arith, l)
]

raised_gas : (c d : ℕ) → let m = if ltb c d then d else c in (ltb m c ≡ false) × (ltb m d ≡ false)
raised_gas c d = (ground arith, ground arith)

-- From a valid list, Add leaves a valid list, in which each transaction is within the caps on cost
-- and gas. If it accepts the transaction, this stands under its nonce, the one that stood there is
-- returned, and nothing else changes; if not, there was one, and the list is as it was.
pub add_lem :
    (l : TxList) (tx : Transaction) (bump : ℕ)
    → IsValid l
    → let (l', accepted, old) = add l tx bump in
      IsValid l'
      × (accepted ≡ true
          → (old ≡ get l.txs tx.nonce)
            × ((k : ℕ) → get l'.txs k ≡ (if tx.nonce == k then some tx else get l.txs k)))
      × (accepted ≡ false → (get l.txs tx.nonce ≢ none) × (l' ≡ l))
unfolding add get put
add_lem l tx bump v = elim (Bool-cases (is_refused tx bump (get l.txs tx.nonce))) [
  | inl r ↦ rw r (v, (λ e. cc), (λ e. (λ z. taken (get l.txs tx.nonce) r z, refl)))
  | inr r ↦
      let c = if ltb_ℤ l.costcap (cost tx) then cost tx else l.costcap in
      let g = if ltb l.gascap tx.gas_limit then tx.gas_limit else l.gascap in
      let (cost_kept, cost_new) = raised l.costcap (cost tx) in
      let (gas_kept, gas_new) = raised_gas l.gascap tx.gas_limit in
      let within : is_costly c g tx ≡ false = rw (cost_new, gas_new) refl in
      rw r (
        record {
          inv = put-Inv l.txs tx v.inv;
          capped =
              put_entry-Affords c g tx.nonce tx l.txs.items within
                (Affords-mono l.costcap c l.gascap g l.txs.items cost_kept gas_kept v.capped);
        },
        (λ e. (refl, λ k. find_entry-put_entry tx.nonce k tx l.txs.items)),
        (λ e. cc),
      )
]
  where
    taken : (o : Option Transaction) → is_refused tx bump o ≡ true → o ≡ none → ⊥
    taken o r z = let s = subst (λ x. is_refused tx bump x ≡ true) z r in cc
