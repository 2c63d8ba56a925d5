-- ===== src/Pool/Tests.antt =====
-- core/tx_list.go on a list of three transactions.
use kkchain.Base.{
  ℕ, [], ◌∷◌, none, some, true, false, ◌≡◌, ◌≢◌, refl, inl, arith, ℤ, pos, if◌then◌else◌, ◌==◌,
  ◌*ℤ◌, ◌+ℤ◌,
}
use kkchain.Pool.SortedMap.{Transaction, cost, TxSortedMap, get, flatten, values}
use kkchain.Pool.Upkeep.{Inv}
use kkchain.Pool.Operations.{CappedAt, cap_lem}
use kkchain.Pool.Calls.{Readied, ready_lem, flatten_lem, apply, caps, apply-Inv}
use kkchain.Pool.TxList.{TxList, add, filter_list, remove_tx}
use kkchain.Pool.Limits.{IsValid, add_lem}
use kkchain.Pool.Filter.{AllSmall}
use kkchain.Pool.Strict.{Filtered, filter_list_lem, NoGaps, strict-NoGaps}

abbrev pay : ℕ → ℕ → Transaction
pay n amount = record {
  nonce = n;
  gas_price = pos 1;
  gas_limit = 10;
  receiver = some 2;
  amount = pos amount;
  payload = [];
  hash = n;
  sender = 1;
}

abbrev queue : TxSortedMap
queue = record {
  items = (3, pay 3 5) ∷ (4, pay 4 90) ∷ (5, pay 5 5) ∷ [];
  index = 3 ∷ 4 ∷ 5 ∷ [];
  cache = none;
}

abbrev pending : TxList
pending = record { strict = true; txs = queue; costcap = pos 100; gascap = 10 }

queue-Inv : Inv queue
queue-Inv = record {
  ascending = (refl, (omega arith, (omega arith, tt)), (refl, (omega arith, tt), (refl, tt, tt)));
  indexed = refl;
  cached = inl refl;
}

pending-IsValid : IsValid pending
unfolding cost ◌*ℤ◌ ◌+ℤ◌
pending-IsValid = record { inv = queue-Inv; capped = (refl, (refl, (refl, tt))) }

pending-AllSmall : AllSmall queue.items
pending-AllSmall = (omega arith, (omega arith, (omega arith, tt)))

apply-Inv_example : (m : TxSortedMap) × (apply (caps 2) queue ≡ some m) × Inv m
apply-Inv_example = apply-Inv (caps 2) queue queue-Inv

ready_lem_example : Readied queue 3
ready_lem_example = ready_lem queue 3 queue-Inv

cap_lem_example : CappedAt queue 2
cap_lem_example = cap_lem queue 2 queue-Inv

flatten_lem_example :
    ((flatten (2 ∷ 0 ∷ []) queue).1 ≡ values queue.items)
    × ((flatten (2 ∷ 0 ∷ []) queue).0.items ≡ queue.items)
    × Inv (flatten (2 ∷ 0 ∷ []) queue).0
flatten_lem_example = flatten_lem (2 ∷ 0 ∷ []) queue queue-Inv

add_lem_example :
    let (l, accepted, old) = add pending (pay 6 5) 10 in
    IsValid l
    × (accepted ≡ true
        → (old ≡ get queue 6)
          × ((k : ℕ) → get l.txs k ≡ (if 6 == k then some (pay 6 5) else get queue k)))
    × (accepted ≡ false → (get queue 6 ≢ none) × (l ≡ pending))
add_lem_example = add_lem pending (pay 6 5) 10 pending-IsValid

filter_list_lem_example : Filtered pending (pos 50) 10
filter_list_lem_example = filter_list_lem pending (pos 50) 10 pending-IsValid pending-AllSmall

strict-NoGaps_example :
    ((c : ℤ) (g : ℕ) → NoGaps (filter_list pending c g).0.txs.items)
    × ((tx : Transaction) → NoGaps (remove_tx pending tx).0.txs.items)
strict-NoGaps_example =
    strict-NoGaps pending pending-IsValid pending-AllSmall refl (refl, (refl, tt))
