-- ===== src/Pool/Loops.antt =====
-- The loops of `Forward`, `Ready` and `Cap` over entries by ascending nonce.
use mathlib.Core.List.{append-nil, append_assoc}
use kkchain.Base.{
  ℕ, zero, suc, ◌+◌, ◌-◌, ◌%◌, ◌^◌, ◌≤◌, ◌<◌, List, [], ◌∷◌, ◌++◌, map, Option, some, Bool, true,
  false, not, ◌==◌, if◌then◌else◌, ltb, length, get_elem?, reverse, snoc, map-append, Bool-cases,
  ◌≡◌, refl, ap, sym, subst, ◌∙◌, inl, inr, arith,
}
use kkchain.Pool.SortedMap.{
  Transaction, find_entry, delete_entry, keys, values, select, forward_loop, ready_loop, cap_loop,
}
use kkchain.Pool.Entries.{Above, Ascending}

find_first :
    (e : ℕ × Transaction) (es : List (ℕ × Transaction)) → find_entry e.0 (e ∷ es) ≡ some e.1
unfolding find_entry
find_first e es = ground arith

delete_first : (e : ℕ × Transaction) (es : List (ℕ × Transaction)) → delete_entry e.0 (e ∷ es) ≡ es
unfolding delete_entry
delete_first e es = ground arith

abbrev pub is_below : ℕ → Transaction → Bool
is_below n tx = ltb tx.nonce n

-- Where the first nonce is not below, none is.
pub select_none :
    (t n : ℕ) (es : List (ℕ × Transaction))
    → t ≤ n
    → Above n es
    → Ascending es
    → (select (is_below t) es ≡ []) × (select (λ tx. not (is_below t tx)) es ≡ es)
unfolding select
select_none t n [] h a b = (refl, refl)
select_none t n (e ∷ es) h a b =
    let (none_below, all_above) = select_none t n es h a.1 b.2 in
    let high : is_below t e.1 ≡ false = ground (arith, h, a.0, b.0) in
    (rw high none_below, rw high (ap (λ (r : List (ℕ × Transaction)). e ∷ r) all_above))

abbrev pub Split : Type 0
Split = List (Option Transaction) × List (ℕ × Transaction) × List ℕ

-- One round of the loops of Forward and Ready.
abbrev pick : ℕ × Transaction → List (ℕ × Transaction) → Bool → Split → Option Transaction → Split
pick e es test r o = if test then (o ∷ r.0, r.1, r.2) else ([], e ∷ es, e.0 ∷ keys es)

-- The loop of Forward removes what is below the threshold.
pub forward_loop-select :
    (t : ℕ) (es : List (ℕ × Transaction))
    → Ascending es
    → let rest = select (λ tx. not (is_below t tx)) es in
      forward_loop t (keys es) es ≡ (map some (values (select (is_below t) es)), rest, keys rest)
unfolding forward_loop select
forward_loop-select t [] a = refl
forward_loop-select t (e ∷ es) a =
    let rec = forward_loop-select t es a.2 in
    let found = find_first e es in
    let gone = delete_first e es in
    let step : (forward_loop t (e.0 ∷ keys es) (e ∷ es))
        ≡ pick e es (ltb e.0 t) (forward_loop t (keys es) es) (some e.1) =
      (λ i. pick e es (ltb e.0 t) (forward_loop t (keys es) (gone i)) (found i)) in
    elim (Bool-cases (ltb e.0 t)) [
      | inl l ↦
          let low : is_below t e.1 ≡ true = ground (arith, a.0, l) in step ∙ (rw (l, low, rec) refl)
      | inr l ↦
          let high : is_below t e.1 ≡ false = ground (arith, a.0, l) in
          let (none_below, all_above) = select_none t e.0 es (ground (arith, l)) a.1 a.2 in
          step ∙ (rw (l, high, none_below, all_above) refl)
    ]

-- The longest run of successive nonces from a nonce on at the front, and what follows it.
unfoldable pub run : ℕ → List (ℕ × Transaction) → List Transaction
run n [] = []
run n (e ∷ es) = let more = run ((n + 1) % (2 ^ 64)) es in if e.0 == n then e.1 ∷ more else []

unfoldable pub past_run : ℕ → List (ℕ × Transaction) → List (ℕ × Transaction)
past_run n [] = []
past_run n (e ∷ es) =
    let more = past_run ((n + 1) % (2 ^ 64)) es in if e.0 == n then more else e ∷ es

-- The loop of Ready removes the run.
pub ready_loop-run :
    (n : ℕ) (es : List (ℕ × Transaction))
    → ready_loop n (keys es) es ≡ (map some (run n es), past_run n es, keys (past_run n es))
unfolding ready_loop run past_run
ready_loop-run n [] = refl
ready_loop-run n (e ∷ es) = elim (Bool-cases (e.0 == n)) [
  | inr l ↦ rw l refl
  | inl l ↦
      let same : e.0 ≡ n = ground (arith, l) in
      let next = (n + 1) % (2 ^ 64) in
      let step : ready_loop n (e.0 ∷ keys es) (e ∷ es)
          ≡ pick e es (e.0 == n) (ready_loop next (keys es) es) (some e.1) =
        (λ i.
          pick e es (e.0 == n)
            (ready_loop next (keys es)
              ((subst (λ k. delete_entry k (e ∷ es) ≡ es) same (delete_first e es)) i))
            ((subst (λ k. find_entry k (e ∷ es) ≡ some e.1) same (find_first e es)) i)) in
      step ∙ (rw (l, ready_loop-run next es) refl)
]

last-Above :
    (n : ℕ) (es : List (ℕ × Transaction)) (e : ℕ × Transaction) → Above n (es ++ (e ∷ [])) → n < e.0
last-Above n [] e a = a.0
last-Above n (f ∷ es) e a = last-Above n es e a.1

-- The last entry is found, and deleted, at the end.
find_last :
    (es : List (ℕ × Transaction)) (e : ℕ × Transaction)
    → Ascending (es ++ (e ∷ []))
    → (find_entry e.0 (es ++ (e ∷ [])) ≡ some e.1) × (delete_entry e.0 (es ++ (e ∷ [])) ≡ es)
unfolding find_entry delete_entry
find_last [] e a = (find_first e [], delete_first e [])
find_last (f ∷ es) e a =
    let differ : (f.0 == e.0) ≡ false = ground (arith, last-Above f.0 es e a.1) in
    let (found, gone) = find_last es e a.2 in
    (rw differ found, rw differ (ap (λ (r : List (ℕ × Transaction)). f ∷ r) gone))

Above-front : (n : ℕ) (es fs : List (ℕ × Transaction)) → Above n (es ++ fs) → Above n es
Above-front n [] fs a = tt
Above-front n (e ∷ es) fs a = (a.0, Above-front n es fs a.1)

pub Ascending-front : (es fs : List (ℕ × Transaction)) → Ascending (es ++ fs) → Ascending es
Ascending-front [] fs a = tt
Ascending-front (e ∷ es) fs a = (a.0, Above-front e.0 es fs a.1, Ascending-front es fs a.2)

get_last :
    (es : List (ℕ × Transaction)) (e : ℕ × Transaction) (ks : List ℕ) (n : ℕ)
    → length es ≡ n
    → get_elem? (keys (es ++ (e ∷ [])) ++ ks) n ≡ some e.0
get_last [] e ks zero h = refl
get_last [] e ks (suc n) h = absurd (omega (arith, h))
get_last (f ∷ es) e ks zero h = absurd (omega (arith, h))
get_last (f ∷ es) e ks (suc n) h = get_last es e ks n (omega (arith, h))

-- What the loop of Cap does.
pub record Capped (rounds : ℕ) (es : List (ℕ × Transaction))
    (o : Option (List (Option Transaction) × List (ℕ × Transaction))) : Type 0 where
  pub dropped : List Transaction
  pub kept : List (ℕ × Transaction)
  pub returned : o ≡ some (map some dropped, kept)
  pub parts : (es' : List (ℕ × Transaction)) × (es ≡ kept ++ es') × (values es' ≡ reverse dropped)
  pub many : length dropped ≡ rounds

cap_round :
    (rounds size : ℕ) (index : List ℕ) (es : List (ℕ × Transaction)) (n : ℕ) {tx : Transaction}
    {es' : List (ℕ × Transaction)} {r : List (Option Transaction) × List (ℕ × Transaction)}
    → get_elem? index size ≡ some n
    → find_entry n es ≡ some tx
    → delete_entry n es ≡ es'
    → cap_loop rounds size index es' ≡ some r
    → cap_loop (suc rounds) (suc size) index es ≡ some (some tx ∷ r.0, r.1)
unfolding cap_loop
cap_round rounds size index es n {r = r} g f d c =
    let less : suc size - 1 ≡ size = omega arith in rw (less, g, f, d, c) refl

pub cap_loop-Capped :
    (rounds : ℕ) (es : List (ℕ × Transaction)) (ks : List ℕ) (size : ℕ)
    → Ascending es
    → length es ≡ size
    → rounds ≤ size
    → Capped rounds es (cap_loop rounds size (keys es ++ ks) es)
unfolding cap_loop
cap_loop-Capped zero es ks size a l h = record {
  dropped = [];
  kept = es;
  returned = refl;
  parts = ([], sym (append-nil es), refl);
  many = refl;
}
cap_loop-Capped (suc rounds) es ks zero a l h = absurd (omega (arith, h))
cap_loop-Capped (suc rounds) es ks (suc size) a l h =
    let (front, e, same, n) = snoc es size l in
    let a' : Ascending (front ++ (e ∷ [])) = subst Ascending same a in
    let rest =
      cap_loop-Capped rounds front (e.0 ∷ ks) size (Ascending-front front (e ∷ []) a') n
        (omega (arith, h)) in
    let (found, gone) = find_last front e a' in
    let split : keys (front ++ (e ∷ [])) ++ ks ≡ keys front ++ (e.0 ∷ ks) =
      ap (λ (x : List ℕ). x ++ ks) (map-append (λ x. x.0) front (e ∷ []))
      ∙ append_assoc (keys front) (e.0 ∷ []) ks in
    let (last, p, v) = rest.parts in
    subst
      (λ (x : List (ℕ × Transaction)).
        Capped (suc rounds) x (cap_loop (suc rounds) (suc size) (keys x ++ ks) x))
      (sym same)
      (record {
        dropped = e.1 ∷ rest.dropped;
        kept = rest.kept;
        returned =
            cap_round rounds size (keys (front ++ (e ∷ [])) ++ ks) (front ++ (e ∷ [])) e.0
              (get_last front e ks size n) found gone
              (subst (λ x. cap_loop rounds size x front ≡ some (map some rest.dropped, rest.kept))
                (sym split) rest.returned);
        parts = (
          last ++ (e ∷ []),
          ap (λ (x : List (ℕ × Transaction)). x ++ (e ∷ [])) p
              ∙ append_assoc rest.kept last (e ∷ []),
          map-append (λ x. x.1) last (e ∷ []) ∙ ap (λ (x : List Transaction). x ++ (e.1 ∷ [])) v,
        );
        many = omega (arith, rest.many);
      })
