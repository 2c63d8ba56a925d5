-- ===== src/Pool/SortedMap.antt =====
-- `txSortedMap` of core/tx_list.go. The map `items` is the list of its entries by ascending key, in
-- which order a range visits them here. The heap `index` is the list of its elements in the order in
-- which container/heap pops them. `none` is a panic; a nil transaction is `none` too.
use kkchain.Base.{
  ℕ, zero, suc, ◌+◌, ◌-◌, ◌%◌, ◌^◌, List, [], ◌∷◌, map, Option, none, some, Bool, true, false, not,
  ◌==◌, if◌then◌else◌, ltb, leb, length, take, drop, get_elem?, ◌>>=◌, ℤ, pos, ◌+ℤ◌, ◌*ℤ◌,
}

pub record Transaction : Type 0 where
  pub nonce : ℕ
  pub gas_price : ℤ
  pub gas_limit : ℕ
  pub receiver : Option ℕ
  pub amount : ℤ
  pub payload : List ℕ
  pub hash : ℕ
  pub sender : ℕ

-- `Cost`
unfoldable pub cost : Transaction → ℤ
cost tx = tx.gas_price *ℤ pos tx.gas_limit +ℤ tx.amount

pub record TxSortedMap : Type 0 where
  pub items : List (ℕ × Transaction)
  pub index : List ℕ
  pub cache : Option (List Transaction)

-- `newTxSortedMap`
abbrev pub new_tx_sorted_map : TxSortedMap
new_tx_sorted_map = record { items = []; index = []; cache = none }

unfoldable pub find_entry : ℕ → List (ℕ × Transaction) → Option Transaction
find_entry n [] = none
find_entry n ((k, tx) ∷ es) = let rest = find_entry n es in if k == n then some tx else rest

unfoldable pub put_entry : ℕ → Transaction → List (ℕ × Transaction) → List (ℕ × Transaction)
put_entry n tx [] = (n, tx) ∷ []
put_entry n tx ((k, old) ∷ es) =
    let rest = put_entry n tx es in
    if k == n then (n, tx) ∷ es else if ltb n k then (n, tx) ∷ (k, old) ∷ es else (k, old) ∷ rest

unfoldable pub delete_entry : ℕ → List (ℕ × Transaction) → List (ℕ × Transaction)
delete_entry n [] = []
delete_entry n ((k, tx) ∷ es) =
    let rest = delete_entry n es in if k == n then es else (k, tx) ∷ rest

abbrev pub keys : List (ℕ × Transaction) → List ℕ
keys es = map (λ e. e.0) es

abbrev pub values : List (ℕ × Transaction) → List Transaction
values es = map (λ e. e.1) es

-- `heap.Push`, `heap.Init` and `heap.Remove` at the place of an element
unfoldable pub heap_push : ℕ → List ℕ → List ℕ
heap_push n [] = n ∷ []
heap_push n (k ∷ ks) = let rest = heap_push n ks in if leb n k then n ∷ k ∷ ks else k ∷ rest

unfoldable pub heap_init : List ℕ → List ℕ
unfolding heap_push
heap_init [] = []
heap_init (k ∷ ks) = heap_push k (heap_init ks)

unfoldable pub heap_remove : ℕ → List ℕ → List ℕ
heap_remove n [] = []
heap_remove n (k ∷ ks) = let rest = heap_remove n ks in if k == n then ks else k ∷ rest

-- `Get`
unfoldable pub get : TxSortedMap → ℕ → Option Transaction
unfolding find_entry
get m nonce = find_entry nonce m.items

abbrev pub push_if_new : ℕ → Option Transaction → List ℕ → List ℕ
push_if_new n none index = heap_push n index
push_if_new n (some _) index = index

-- `Put`
unfoldable pub put : TxSortedMap → Transaction → TxSortedMap
unfolding get put_entry heap_push
put m tx = record {
  items = put_entry tx.nonce tx m.items;
  index = push_if_new tx.nonce (get m tx.nonce) m.index;
  cache = none;
}

-- The loop of `Forward`: the removed transactions, and what is left of the map and of the heap.
unfoldable pub forward_loop :
    ℕ
    → List ℕ
    → List (ℕ × Transaction)
    → List (Option Transaction) × List (ℕ × Transaction) × List ℕ
unfolding find_entry delete_entry
forward_loop threshold [] items = ([], items, [])
forward_loop threshold (n ∷ index) items =
    let (removed, items', index') = forward_loop threshold index (delete_entry n items) in
    if ltb n threshold
    then (find_entry n items ∷ removed, items', index')
    else ([], items, n ∷ index)

-- `cache[n:]` and `cache[:length_list(cache)-n]` of a cache that is not nil
abbrev pub shift_front : ℕ → Option (List Transaction) → Option (Option (List Transaction))
shift_front n none = some none
shift_front n (some txs) = if ltb (length txs) n then none else some (some (drop n txs))

abbrev pub shift_back : ℕ → Option (List Transaction) → Option (Option (List Transaction))
shift_back n none = some none
shift_back n (some txs) =
    if ltb (length txs) n then none else some (some (take (length txs - n) txs))

-- `Forward`
unfoldable pub forward : TxSortedMap → ℕ → Option (TxSortedMap × List (Option Transaction))
unfolding forward_loop
forward m threshold =
    let (removed, items, index) = forward_loop threshold m.index m.items in
    shift_front (length removed) m.cache >>= λ cache.
    some (record { items = items; index = index; cache = cache }, removed)

unfoldable pub select : (Transaction → Bool) → List (ℕ × Transaction) → List (ℕ × Transaction)
select f [] = []
select f ((k, tx) ∷ es) = let rest = select f es in if f tx then (k, tx) ∷ rest else rest

abbrev pub reheap : TxSortedMap → List (ℕ × Transaction) → List Transaction → TxSortedMap
reheap m items [] = record m { items = items }
reheap m items (_ ∷ _) = record { items = items; index = heap_init (keys items); cache = none }

-- `Filter`
unfoldable pub filter_map : TxSortedMap → (Transaction → Bool) → TxSortedMap × List Transaction
unfolding select heap_init
filter_map m f =
    let removed = values (select f m.items) in
    (reheap m (select (λ tx. not (f tx)) m.items) removed, removed)

-- The loop of `Cap` over the sorted heap, for so many rounds.
unfoldable pub cap_loop :
    ℕ
    → ℕ
    → List ℕ
    → List (ℕ × Transaction)
    → Option (List (Option Transaction) × List (ℕ × Transaction))
unfolding find_entry delete_entry
cap_loop zero size index items = some ([], items)
cap_loop (suc rounds) size index items = get_elem? index (size - 1) >>= λ n.
    cap_loop rounds (size - 1) index (delete_entry n items) >>= λ r.
    some (find_entry n items ∷ r.0, r.1)

-- `Cap`, for a limit that is not negative
unfoldable pub cap : TxSortedMap → ℕ → Option (TxSortedMap × List (Option Transaction))
unfolding cap_loop
cap m threshold =
    if leb (length m.items) threshold
    then some (m, [])
    else (cap_loop (length m.items - threshold) (length m.items) m.index m.items >>= λ r.
        shift_back (length r.0) m.cache >>= λ cache.
        some (record { items = r.1; index = take threshold m.index; cache = cache }, r.0))

abbrev pub remove_found : TxSortedMap → ℕ → Option Transaction → TxSortedMap × Bool
remove_found m nonce none = (m, false)
remove_found m nonce (some _) = (
  record { items = delete_entry nonce m.items; index = heap_remove nonce m.index; cache = none },
  true,
)

-- `Remove`
unfoldable pub remove : TxSortedMap → ℕ → TxSortedMap × Bool
unfolding get delete_entry heap_remove
remove m nonce = remove_found m nonce (get m nonce)

-- The loop of `Ready`, from the nonce `next` on.
unfoldable pub ready_loop :
    ℕ
    → List ℕ
    → List (ℕ × Transaction)
    → List (Option Transaction) × List (ℕ × Transaction) × List ℕ
unfolding find_entry delete_entry
ready_loop next [] items = ([], items, [])
ready_loop next (n ∷ index) items =
    let (ready, items', index') =
      ready_loop ((next + 1) % (2 ^ 64)) index (delete_entry next items) in
    if n == next then (find_entry next items ∷ ready, items', index') else ([], items, n ∷ index)

abbrev pub ready_from : TxSortedMap → ℕ → List ℕ → TxSortedMap × List (Option Transaction)
ready_from m start [] = (m, [])
ready_from m start (n ∷ index) =
    let (ready, items, index') = ready_loop n (n ∷ index) m.items in
    if ltb start n then (m, []) else (record { items = items; index = index'; cache = none }, ready)

-- `Ready`
unfoldable pub ready : TxSortedMap → ℕ → TxSortedMap × List (Option Transaction)
unfolding ready_loop
ready m start = ready_from m start m.index

-- `sort.Sort` by nonces, of transactions with different nonces
unfoldable pub insert_by_nonce : Transaction → List Transaction → List Transaction
insert_by_nonce tx [] = tx ∷ []
insert_by_nonce tx (t ∷ ts) =
    let rest = insert_by_nonce tx ts in if ltb t.nonce tx.nonce then t ∷ rest else tx ∷ t ∷ ts

unfoldable pub sort_by_nonce : List Transaction → List Transaction
unfolding insert_by_nonce
sort_by_nonce [] = []
sort_by_nonce (t ∷ ts) = insert_by_nonce t (sort_by_nonce ts)

-- The order of a range over the map: each entry in turn goes to the next place of the list `order`,
-- among those after it. So every order of the entries comes from some list of places.
unfoldable pub insert_at {ℓ} : {A : Type ℓ} → ℕ → A → List A → List A
insert_at place x [] = x ∷ []
insert_at zero x (y ∷ ys) = x ∷ y ∷ ys
insert_at (suc place) x (y ∷ ys) = y ∷ insert_at place x ys

unfoldable pub shuffle {ℓ} : {A : Type ℓ} → List ℕ → List A → List A
unfolding insert_at
shuffle order [] = []
shuffle [] (x ∷ xs) = x ∷ shuffle [] xs
shuffle (place ∷ order) (x ∷ xs) = insert_at place x (shuffle order xs)

abbrev pub sorted_cache : List ℕ → TxSortedMap → Option (List Transaction) → List Transaction
sorted_cache order m none = sort_by_nonce (shuffle order (values m.items))
sorted_cache order m (some txs) = txs

-- `Flatten`, for an order in which it ranges over the map
unfoldable pub flatten : List ℕ → TxSortedMap → TxSortedMap × List Transaction
unfolding sort_by_nonce shuffle
flatten order m = let txs = sorted_cache order m m.cache in (record m { cache = some txs }, txs)
