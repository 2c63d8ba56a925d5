-- ===== src/TxPool/Remain.antt =====
-- What stays listed in core/tx_pool.go when the list of an account is replaced.
use kkchain.Base.{
  ℕ, List, [], ◌∷◌, Option, none, some, true, false, ◌==◌, if◌then◌else◌, Bool-cases, Option-cases,
  length, update, ◌≡◌, ◌⊎◌, ap, sym, ◌∙◌, inl, inr, arith, some_inj,
}
use kkchain.Pool.SortedMap.{Transaction, find_entry, get}
use kkchain.Pool.TxList.{TxList, length_list, is_empty_list}
use kkchain.TxPool.Priced.{TxLookup, lookup_get}
use kkchain.TxPool.Moves.{place}
use kkchain.TxPool.Complete.{Among, Listed, Complete}
use kkchain.TxPool.Sound.{places, Agrees}

-- The list that is deleted when it is empty.
abbrev pub unless_empty : TxList → Option TxList
unless_empty l = if is_empty_list l then none else some l

pub kept-place :
    (l : TxList) (n : ℕ) (t : Transaction)
    → get l.txs n ≡ some t
    → place (unless_empty l) n ≡ some t
unfolding get find_entry is_empty_list length_list
kept-place l n t e = elim (Bool-cases (is_empty_list l)) [
  | inr x ↦ rw x e
  | inl x ↦ absurd (nothing l.txs.items x e)
]
  where
    nothing : (es : List (ℕ × Transaction)) → (length es == 0) ≡ true → find_entry n es ≡ some t → ⊥
    nothing [] x e = cc
    nothing (f ∷ es) x e = ground (arith, x)

pub queue_loses :
    (pending queue : ℕ → Option TxList) (s : ℕ) (o : Option TxList) (moving : List Transaction)
    → ((n : ℕ) (t : Transaction)
        → place (queue s) n ≡ some t
        → (place o n ≡ some t) ⊎ Among t moving)
    → (t : Transaction) → Listed (places pending queue) t
    → Listed (places pending (update queue s o)) t ⊎ Among t moving
queue_loses pending queue s o moving h t (true, l) = inl (true, l)
queue_loses pending queue s o moving h t (false, l) = elim (Bool-cases (t.sender == s)) [
  | inr x ↦ inl (false, rw x l)
  | inl x ↦
      let same : t.sender ≡ s = ground (arith, x) in
      elim (h t.nonce t (ap (λ k. place (queue k) t.nonce) (sym same) ∙ l)) [
        | inl z ↦ inl (false, rw x z)
        | inr z ↦ inr z
      ]
]

pub pending_loses :
    (pending queue : ℕ → Option TxList) (s : ℕ) (o : Option TxList) (moving : List Transaction)
    → ((n : ℕ) (t : Transaction)
        → place (pending s) n ≡ some t
        → (place o n ≡ some t) ⊎ Among t moving)
    → (t : Transaction) → Listed (places pending queue) t
    → Listed (places (update pending s o) queue) t ⊎ Among t moving
pending_loses pending queue s o moving h t (false, l) = inl (false, l)
pending_loses pending queue s o moving h t (true, l) = elim (Bool-cases (t.sender == s)) [
  | inr x ↦ inl (true, rw x l)
  | inl x ↦
      let same : t.sender ≡ s = ground (arith, x) in
      elim (h t.nonce t (ap (λ k. place (pending k) t.nonce) (sym same) ∙ l)) [
        | inl z ↦ inl (true, rw x z)
        | inr z ↦ inr z
      ]
]

-- A nonce that is pending is not queued.
pub not_queued :
    (pending queue : ℕ → Option TxList) (all : TxLookup) (a n : ℕ) (t : Transaction)
    → Agrees pending queue all
    → place (pending a) n ≡ some t
    → place (queue a) n ≡ none
not_queued pending queue all a n t g e = elim (Option-cases (place (queue a) n)) [
  | inl x ↦ x
  | inr (u, x) ↦ absurd (g.sees.apart a n t u e x)
]

-- A known transaction whose nonce is not pending is queued.
pub queued_there :
    (pending queue : ℕ → Option TxList) (all : TxLookup) (hash : ℕ) (tx : Transaction)
    → Complete (places pending queue) all []
    → lookup_get all hash ≡ some tx
    → ((t : Transaction) → place (pending tx.sender) tx.nonce ≡ some t → ⊥)
    → place (queue tx.sender) tx.nonce ≡ some tx
queued_there pending queue all hash tx c e v = elim (c hash tx e) [
  | inl (true, l) ↦ absurd (v tx l)
  | inl (false, l) ↦ l
  | inr x ↦ absurd x
]

-- A known transaction whose nonce is pending is what is pending.
pub pending_there :
    (pending queue : ℕ → Option TxList) (all : TxLookup) (hash : ℕ) (tx u : Transaction)
    → Agrees pending queue all
    → Complete (places pending queue) all []
    → lookup_get all hash ≡ some tx
    → place (pending tx.sender) tx.nonce ≡ some u
    → u ≡ tx
pending_there pending queue all hash tx u g c e l = elim (c hash tx e) [
  | inl (true, k) ↦ some_inj (sym l ∙ k)
  | inl (false, k) ↦ absurd (g.sees.apart tx.sender tx.nonce u tx l k)
  | inr x ↦ absurd x
]
