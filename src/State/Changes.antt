-- ===== src/State/Changes.antt =====
-- The balance, self-destruct, log, preimage and refund methods of core/state as steps.
use kkchain.Base.{
  ℕ, ◌+◌, ◌-◌, List, [], ◌∷◌, ◌++◌, Option, none, some, true, update, update_back, Bool-cases,
  Option-cases, drop_last, drop_last-append, ◌≡◌, refl, ap, subst, ◌∙◌, inl, inr, arith, ℤ, ◌+ℤ◌,
  ◌-ℤ◌,
}
use kkchain.State.Types.{
  Log, StateObject, StateDb, suicide_change, refund_change, add_log_change, add_preimage_change,
}
use kkchain.State.Object.{is_zero, is_empty, set_object_balance, mark_suicided, big_zero}
use kkchain.State.Store.{log_change, set_state_object, get_state_object, get_or_new_state_object}
use kkchain.State.Methods.{
  fill_log, add_object_balance, sub_object_balance, mark_if_found, suicide, add_log, add_preimage,
  add_refund,
}
use kkchain.State.World.{view_object, peek, world, set_account, undo}
use kkchain.State.Reads.{Found, get_state_object-Found}
use kkchain.State.Views.{view-set_suicided}
use kkchain.State.Invariant.{Inv}
use kkchain.State.Step.{
  Step, Step-refl, Step-trans, Step-get, Step-write, Step-logged, may_back, log_change-Inv,
  same_key,
}
use kkchain.State.Setters.{IsLive, change_balance-Step, touch-Step}
use kkchain.State.Create.{Found-IsLive, get_or_new-Step}

-- Dropping the last log of a transaction.
pop_back {ℓ} :
    {B : Type ℓ} (f : List Log → B) (logs : List Log) (log : Log)
    → (elim (logs ++ (log ∷ [])) [ [] ↦ none | x ∷ more ↦ some (f (drop_last (x ∷ more))) ])
      ≡ some (f logs)
pop_back f [] log = ap some (ap f (drop_last-append [] log))
pop_back f (x ∷ logs) log = ap some (ap f (drop_last-append (x ∷ logs) log))

module _ {Trie : Type 0} where
  pub add_object_balance-Step :
      (s : StateDb Trie) (o : StateObject Trie) (amount : ℤ)
      → Inv s
      → IsLive s o
      → Step s (add_object_balance s o amount)
  unfolding add_object_balance
  add_object_balance-Step s o amount v l =
      let touched = touch-Step s o v in
      let moved = change_balance-Step s o (o.account.balance +ℤ amount) v l in
      let idle = Step-refl s v in
      elim (Bool-cases (is_zero amount)) [
        | inl z ↦ elim (Bool-cases (is_empty s.db o)) [
          | inl e ↦ rw (z, e) touched
          | inr e ↦ rw (z, e) idle
        ]
        | inr z ↦ rw z moved
      ]

  pub sub_object_balance-Step :
      (s : StateDb Trie) (o : StateObject Trie) (amount : ℤ)
      → Inv s
      → IsLive s o
      → Step s (sub_object_balance s o amount)
  unfolding sub_object_balance
  sub_object_balance-Step s o amount v l =
      let moved = change_balance-Step s o (o.account.balance -ℤ amount) v l in
      let idle = Step-refl s v in
      elim (Bool-cases (is_zero amount)) [ inl z ↦ rw z idle | inr z ↦ rw z moved ]

  -- What a method does after `GetOrNewStateObject` decides.
  pub then_change :
      (f : StateDb Trie → StateObject Trie → StateDb Trie)
      → ((s : StateDb Trie) (o : StateObject Trie) → Inv s → IsLive s o → Step s (f s o))
      → (s : StateDb Trie) (a : ℕ) → Inv s
      → Step s (f (get_or_new_state_object s a).0 (get_or_new_state_object s a).1)
  then_change f h s a v =
      let (first, l) = get_or_new-Step s a v in
      Step-trans first
        (h (get_or_new_state_object s a).0 (get_or_new_state_object s a).1 first.inv l)

  mark-Step :
      (s : StateDb Trie) (o : StateObject Trie) (a : ℕ)
      → Inv s
      → IsLive s o
      → o.address ≡ a
      → Step s (
          set_state_object
            (log_change s (suicide_change a o.suicided o.account.balance))
            (set_object_balance (mark_suicided o) big_zero))
  unfolding undo
  mark-Step s o a v l k =
      Step-write s (set_object_balance (mark_suicided o) big_zero)
        (suicide_change a o.suicided o.account.balance) v tt l.alive
        (subst
          (λ b.
            undo s.db s.trie (suicide_change b o.suicided o.account.balance) (
              set_account (world s) o.address
                (some (view_object s.db (set_object_balance (mark_suicided o) big_zero))))
            ≡ some (world s))
          k
          (may_back _ (world s) o.address (view_object s.db o) _ l.shown
            (rw (view-set_suicided s.db o big_zero true) (unfold view_object in refl))))

  pub suicide-Step : (s : StateDb Trie) (a : ℕ) → Inv s → Step s (suicide s a).0
  unfolding suicide
  suicide-Step s a v =
      go (get_state_object s a).0 (get_state_object s a).1 (get_state_object-Found s a)
        (Step-get s a v)
    where
      go :
          (s' : StateDb Trie) (r : Option (StateObject Trie))
          → Found s a s' r
          → Step s s'
          → Step s (mark_if_found (s', r) a).0
      go s' none found first = unfold mark_if_found in first
      go s' (some o) found first =
          let (k, l) = Found-IsLive o found v refl in
          unfold mark_if_found in Step-trans first (mark-Step s' o a first.inv l k)

  pub add_log-Step : (s : StateDb Trie) (payload : List ℕ) → Inv s → Step s (add_log s payload)
  unfolding add_log undo world peek
  add_log-Step s payload v =
      let log = fill_log s payload in
      let size : s.log_size + 1 - 1 ≡ s.log_size = omega arith in
      let logs' = update s.logs s.thash (s.logs s.thash ++ (log ∷ [])) in
      Step-logged s (add_log s payload) (add_log_change s.thash)
        (let w = log_change-Inv (add_log_change s.thash) v tt in
          record { keyed = w.keyed; cleared = w.cleared; sound = w.sound })
        refl refl refl refl refl
        (rw (same_key s.thash, undo)
          (pop_back
              (λ more. record (world s) {
                logs = update logs' s.thash more;
                log_size = s.log_size + 1 - 1;
              })
              (s.logs s.thash) log
            ∙ ap some (λ i. record (world s) {
              logs =
                  update_back s.logs s.thash (s.logs s.thash ++ (log ∷ [])) (s.logs s.thash) refl i;
              log_size = size i;
            })))

  pub add_preimage-Step :
      (s : StateDb Trie) (hash : ℕ) (preimage : List ℕ)
      → Inv s
      → Step s (add_preimage s hash preimage)
  unfolding add_preimage
  add_preimage-Step s hash preimage v = elim (Option-cases (s.preimages hash)) [
    | inr (p, e) ↦ let idle = Step-refl s v in rw (e, add_preimage) idle
    | inl e ↦ rw (e, add_preimage) (fresh e)
  ]
    where
      fresh :
          s.preimages hash ≡ none
          → Step s (record (log_change s (add_preimage_change hash)) {
            preimages = update s.preimages hash (some preimage);
          })
      fresh e =
          Step-logged s _ (add_preimage_change hash)
            (let w = log_change-Inv (add_preimage_change hash) v tt in
              record { keyed = w.keyed; cleared = w.cleared; sound = w.sound })
            refl refl refl refl refl
            (unfold undo world peek in
              ap some (
                ap (λ (m : ℕ → Option (List ℕ)). record (world s) { preimages = m })
                  (update_back s.preimages hash (some preimage) none e)))

  pub add_refund-Step : (s : StateDb Trie) (gas : ℕ) → Inv s → Step s (add_refund s gas)
  unfolding add_refund undo world peek
  add_refund-Step s gas v =
      Step-logged s (add_refund s gas) (refund_change s.refund)
        (let w = log_change-Inv (refund_change s.refund) v tt in
          record { keyed = w.keyed; cleared = w.cleared; sound = w.sound })
        refl refl refl refl refl refl
