-- ===== src/Pool/TxList.antt =====
-- `txList` of core/tx_list.go: the transactions of one account, with the caps on cost and gas.
use kkchain.Base.{
  ℕ, ◌+◌, List, [], ◌∷◌, Option, none, some, Bool, true, false, not, ◌&&◌, ◌||◌, ◌==◌,
  if◌then◌else◌, ltb, leb, length, ◌>>=◌, ℤ, pos, ◌*ℤ◌, ltb_ℤ, div_ℤ,
}
use kkchain.Pool.SortedMap.{
  Transaction, cost, TxSortedMap, new_tx_sorted_map, get, put, forward, filter_map, cap, remove,
  ready, flatten,
}

pub record TxList : Type 0 where
  pub strict : Bool
  pub txs : TxSortedMap
  pub costcap : ℤ
  pub gascap : ℕ

-- `newTxList`
unfoldable pub new_tx_list : Bool → TxList
new_tx_list strict = record {
  strict = strict;
  txs = new_tx_sorted_map;
  costcap = pos 0;
  gascap = 0;
}

abbrev pub is_some {ℓ} : {A : Type ℓ} → Option A → Bool
is_some none = false
is_some (some _) = true

-- `Overlaps`
unfoldable pub overlaps : TxList → Transaction → Bool
overlaps l tx = is_some (get l.txs tx.nonce)

-- Whether the price of a transaction is too low to replace the old one.
unfoldable pub is_refused : Transaction → ℕ → Option Transaction → Bool
is_refused tx price_bump none = false
is_refused tx price_bump (some old) =
    let threshold = div_ℤ (old.gas_price *ℤ pos (100 + price_bump)) 100 in
    not (ltb_ℤ old.gas_price tx.gas_price) || ltb_ℤ tx.gas_price threshold

-- `Add`, for a price bump that is an int64
unfoldable pub add : TxList → Transaction → ℕ → TxList × Bool × Option Transaction
unfolding is_refused
add l tx price_bump =
    let old = get l.txs tx.nonce in
    if is_refused tx price_bump old then (l, false, none) else (
      record l {
        txs = put l.txs tx;
        costcap = if ltb_ℤ l.costcap (cost tx) then cost tx else l.costcap;
        gascap = if ltb l.gascap tx.gas_limit then tx.gas_limit else l.gascap;
      },
      true,
      old,
    )

-- math.MaxUint64, then the least nonce
unfoldable pub lowest_nonce : List Transaction → ℕ
lowest_nonce [] = 18446744073709551615
lowest_nonce (tx ∷ txs) =
    let rest = lowest_nonce txs in if ltb tx.nonce rest then tx.nonce else rest

-- In strict mode, what stands above a nonce goes too.
abbrev pub drop_above : TxList → TxSortedMap → Bool → ℕ → TxList × List Transaction
drop_above l m above n =
    let (m', invalids) = filter_map m (λ tx. ltb n tx.nonce) in
    if above then (record l { txs = m' }, invalids) else (record l { txs = m }, [])

abbrev pub is_nonempty {ℓ} : {A : Type ℓ} → List A → Bool
is_nonempty [] = false
is_nonempty (_ ∷ _) = true

abbrev pub is_costly : ℤ → ℕ → Transaction → Bool
is_costly cost_limit gas_limit tx = ltb_ℤ cost_limit (cost tx) || ltb gas_limit tx.gas_limit

-- `Filter`
unfoldable pub filter_list : TxList → ℤ → ℕ → TxList × List Transaction × List Transaction
unfolding lowest_nonce
filter_list l cost_limit gas_limit =
    let (m, removed) = filter_map l.txs (is_costly cost_limit gas_limit) in
    let (l', invalids) =
      drop_above (record l { costcap = cost_limit; gascap = gas_limit }) m
        (l.strict && is_nonempty removed) (lowest_nonce removed) in
    if not (ltb_ℤ cost_limit l.costcap) && leb l.gascap gas_limit
    then (l, [], [])
    else (l', removed, invalids)

-- `Remove`
unfoldable pub remove_tx : TxList → Transaction → TxList × Bool × List Transaction
remove_tx l tx =
    let (m, found) = remove l.txs tx.nonce in
    let (l', invalids) = drop_above l m l.strict tx.nonce in
    if found then (l', true, invalids) else (l, false, [])

-- `Forward`, `Cap`, `Ready` and `Flatten` of a list
unfoldable pub forward_list : TxList → ℕ → Option (TxList × List (Option Transaction))
forward_list l threshold = forward l.txs threshold >>= λ r. some (record l { txs = r.0 }, r.1)

unfoldable pub cap_list : TxList → ℕ → Option (TxList × List (Option Transaction))
cap_list l threshold = cap l.txs threshold >>= λ r. some (record l { txs = r.0 }, r.1)

unfoldable pub ready_list : TxList → ℕ → TxList × List (Option Transaction)
ready_list l start = let (m, txs) = ready l.txs start in (record l { txs = m }, txs)

unfoldable pub flatten_list : List ℕ → TxList → TxList × List Transaction
flatten_list order l = let (m, txs) = flatten order l.txs in (record l { txs = m }, txs)

-- `Len` and `Empty`
unfoldable pub length_list : TxList → ℕ
length_list l = length l.txs.items

unfoldable pub is_empty_list : TxList → Bool
unfolding length_list
is_empty_list l = length_list l == 0
