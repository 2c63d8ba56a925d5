-- ===== src/TxPool/Priced.antt =====
-- `txLookup`, `priceHeap` and `txPricedList` of core/tx_list.go. A lookup is the list of its entries by
-- ascending hash, in which order a range visits them here. The heap is the slice of container/heap.
use kkchain.Base.{
  ℕ, zero, suc, ◌+◌, ◌-◌, ◌*◌, ◌/◌, List, [], ◌∷◌, ◌++◌, Option, some, Bool, true, false, not, ◌&&◌,
  ◌||◌, ◌==◌, if◌then◌else◌, ltb, leb, length, take, get_elem?, set_nth, ℤ, pos, ◌+ℤ◌, ◌-ℤ◌, ltb_ℤ,
}
use kkchain.Pool.SortedMap.{Transaction, find_entry, put_entry, delete_entry, values}

abbrev pub TxLookup : Type 0
TxLookup = List (ℕ × Transaction)

-- `Get`, `Count`, `Add` and `Remove` of a lookup
abbrev pub lookup_get : TxLookup → ℕ → Option Transaction
lookup_get all hash = find_entry hash all

abbrev pub lookup_count : TxLookup → ℕ
lookup_count all = length all

abbrev pub lookup_add : TxLookup → Transaction → TxLookup
lookup_add all tx = put_entry tx.hash tx all

abbrev pub lookup_remove : TxLookup → ℕ → TxLookup
lookup_remove all hash = delete_entry hash all

-- `priceHeap.Less`: the cheaper one, at the same price the one with the higher nonce
unfoldable pub is_cheaper : Transaction → Transaction → Bool
is_cheaper s t =
    if ltb_ℤ s.gas_price t.gas_price
    then true
    else if ltb_ℤ t.gas_price s.gas_price
    then false
    else ltb t.nonce s.nonce

-- What a function gives on two elements, where both are in the slice.
abbrev pub on_both {ℓ} :
    {B : Type ℓ} → B → (Transaction → Transaction → B) → Option Transaction → Option Transaction → B
on_both d f (some s) (some t) = f s t
on_both d f _ _ = d

unfoldable pub less_at : List Transaction → ℕ → ℕ → Bool
unfolding is_cheaper
less_at h i j = on_both false is_cheaper (get_elem? h i) (get_elem? h j)

-- `priceHeap.Swap`
unfoldable pub swap_at : List Transaction → ℕ → ℕ → List Transaction
unfolding set_nth
swap_at h i j = on_both h (λ s t. set_nth i t (set_nth j s h)) (get_elem? h i) (get_elem? h j)

-- `up` and `down` of container/heap, for at most so many levels
unfoldable pub up : ℕ → List Transaction → ℕ → List Transaction
unfolding less_at swap_at
up zero h j = h
up (suc levels) h j =
    let i = (j - 1) / 2 in
    let rest = up levels (swap_at h i j) i in if (i == j) || not (less_at h j i) then h else rest

unfoldable pub down : ℕ → List Transaction → ℕ → ℕ → List Transaction
unfolding less_at swap_at
down zero h i n = h
down (suc levels) h i n =
    let left = 2 * i + 1 in
    let child = if ltb (left + 1) n && less_at h (left + 1) left then left + 1 else left in
    let rest = down levels (swap_at h i child) child n in
    if leb n left || not (less_at h child i) then h else rest

-- `heap.Push`, what `heap.Pop` leaves after it took the first element, and `heap.Init`
unfoldable pub push_heap : Transaction → List Transaction → List Transaction
unfolding up
push_heap tx h = up (length h) (h ++ (tx ∷ [])) (length h)

unfoldable pub pop_heap : List Transaction → List Transaction
unfolding down
pop_heap h = let n = length h - 1 in take n (down n (swap_at h 0 n) 0 n)

unfoldable pub init_from : ℕ → List Transaction → List Transaction
unfolding down
init_from zero h = h
init_from (suc i) h = init_from i (down (length h) h i (length h))

unfoldable pub init_heap : List Transaction → List Transaction
unfolding init_from
init_heap h = init_from (length h / 2) h

unfoldable pub push_all : List Transaction → List Transaction → List Transaction
unfolding push_heap
push_all [] h = h
push_all (tx ∷ txs) h = push_all txs (push_heap tx h)

-- `txPricedList`; its pointer to the lookup is an argument of its methods.
pub record TxPricedList : Type 0 where
  pub items : List Transaction
  pub stales : ℤ

-- `Put`
unfoldable pub put_priced : TxPricedList → Transaction → TxPricedList
unfolding push_heap
put_priced l tx = record l { items = push_heap tx l.items }

-- `Removed`
unfoldable pub removed : TxLookup → TxPricedList → TxPricedList
unfolding init_heap
removed all l =
    let stales = l.stales +ℤ pos 1 in
    if not (ltb_ℤ (pos (length l.items / 4)) stales)
    then record l { stales = stales }
    else record { items = init_heap (values all); stales = pos 0 }

abbrev pub is_stale : TxLookup → Transaction → Bool
is_stale all tx = on_both true (λ s t. false) (lookup_get all tx.hash) (some tx)

abbrev pub without_stale : TxPricedList → TxPricedList
without_stale l = record { items = pop_heap l.items; stales = l.stales -ℤ pos 1 }

-- The loop of `Underpriced`, for at most so many stale elements.
unfoldable pub drop_stale : ℕ → TxLookup → TxPricedList → TxPricedList
unfolding pop_heap
drop_stale zero all l = l
drop_stale (suc rounds) all l =
    let rest = drop_stale rounds all (without_stale l) in drop_head l rest l.items
  where
    drop_head : TxPricedList → TxPricedList → List Transaction → TxPricedList
    drop_head l rest [] = l
    drop_head l rest (head ∷ _) = if is_stale all head then rest else l

abbrev pub is_cheapest : Transaction → List Transaction → Bool
is_cheapest tx [] = false
is_cheapest tx (head ∷ _) = not (ltb_ℤ head.gas_price tx.gas_price)

-- `Underpriced`
unfoldable pub underpriced :
    TxLookup → TxPricedList → Transaction → (ℕ → Bool) → TxPricedList × Bool
unfolding drop_stale
underpriced all l tx locals =
    let l' = drop_stale (length l.items) all l in
    if locals tx.sender then (l, false) else (l', is_cheapest tx l'.items)

-- The loop of `Discard`, for at most so many elements: what is dropped, what is saved, and the rest.
unfoldable pub discard_loop :
    ℕ
    → TxLookup
    → TxPricedList
    → ℤ
    → (ℕ → Bool)
    → List Transaction × List Transaction × TxPricedList
unfolding pop_heap
discard_loop zero all l count locals = ([], [], l)
discard_loop (suc rounds) all l count locals =
    next (λ popped left. discard_loop rounds all popped left locals) l.items
  where
    next :
        (TxPricedList → ℤ → List Transaction × List Transaction × TxPricedList)
        → List Transaction
        → List Transaction × List Transaction × TxPricedList
    next go_on [] = ([], [], l)
    next go_on (tx ∷ _) =
        let stale = is_stale all tx in
        let popped = if stale then without_stale l else record l { items = pop_heap l.items } in
        let left = if stale || locals tx.sender then count else count -ℤ pos 1 in
        let (drop, save, l') = go_on popped left in
        if not (ltb_ℤ (pos 0) count)
        then ([], [], l)
        else if stale
        then (drop, save, l')
        else if locals tx.sender
        then (drop, tx ∷ save, l')
        else (tx ∷ drop, save, l')

-- `Discard`
unfoldable pub discard : TxLookup → TxPricedList → ℤ → (ℕ → Bool) → TxPricedList × List Transaction
unfolding discard_loop push_all
discard all l count locals =
    let (drop, save, l') = discard_loop (length l.items) all l count locals in
    (record l' { items = push_all save l'.items }, drop)
