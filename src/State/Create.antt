-- ===== src/State/Create.antt =====
-- `createObject`, `GetOrNewStateObject` and `CreateAccount` of core/state as steps.
use kkchain.Base.{
  ℕ, Option, none, some, false, sym, subst, Option-cases, ◌≡◌, refl, ap, ◌∙◌, inl, inr, arith, ℤ,
}
use kkchain.State.Types.{StateObject, Entry, StateDb, create_object_change, reset_object_change}
use kkchain.State.Object.{new_object, set_object_balance, set_object_nonce}
use kkchain.State.Store.{
  no_account, log_change, set_state_object, get_state_object, replace_object, create_object,
  new_if_missing, get_or_new_state_object, carry_balance, create_account,
}
use kkchain.State.World.{
  AccountView, World, view_object, visible, view_option, peek, world, set_account, undo,
  stored_object,
}
use kkchain.State.Reads.{
  Found, missing, live, loaded, get_state_object-Found, Found-world, world-set_state_object,
}
use kkchain.State.Undo.{Found-some, visible_lem}
use kkchain.State.Invariant.{Inv, Found-Frame, set_state_object-Inv}
use kkchain.State.Step.{
  Step, Step-trans, Step-get, Step-write, Step-logged, set_account_back, set_account_twice,
  world-log_change, log_change-Inv,
}
use kkchain.State.Setters.{IsLive}

module _ {Trie : Type 0} where
  -- What a missing account leaves in the trie.
  stored_none :
      (s : StateDb Trie) (a : ℕ) → Inv s → peek s a ≡ none → stored_object s.db s.trie a ≡ none
  unfolding peek
  stored_none s a v h = elim (Option-cases (s.state_objects a)) [
    | inl e ↦ ground arith
    | inr (o, e) ↦ v.cleared a o e (ground arith)
  ]

  -- An entry for a replaced object gives that object back, whatever stands in its place.
  reset_back :
      (s : StateDb Trie) (prev : StateObject Trie) (a : ℕ) (x : Option AccountView)
      → prev.address ≡ a
      → IsLive s prev
      → undo s.db s.trie (reset_object_change prev) (set_account (world s) a x) ≡ some (world s)
  unfolding undo
  reset_back s prev a x k l =
      subst
        (λ b.
          ◌≡◌ {A = Option World}
            (some (
              set_account (set_account (world s) b x) prev.address
                (view_option s.db (visible prev))))
            (some (world s)))
        k
        (ap some
          (set_account_back (world s) prev.address x _ (rw (visible_lem prev l.alive) l.shown)))

  replace_object-Step :
      (s : StateDb Trie) (a : ℕ) (prev : Option (StateObject Trie))
      → Inv s
      → (prev ≡ none → peek s a ≡ none)
      → ((o : StateObject Trie) → prev ≡ some o → (o.address ≡ a) × IsLive s o)
      → Step s (replace_object s a prev).0
  unfolding replace_object undo
  replace_object-Step s a none v absent present =
      Step-write s (set_object_nonce (new_object s.db a no_account) 0) (create_object_change a) v tt
        refl
        (rw (stored_none s a v (absent refl))
          (ap some (set_account_back (world s) a _ none (unfold world in rw (absent refl)))))
  replace_object-Step s a (some prev) v absent present =
      let (k, l) = present prev refl in
      Step-write s (set_object_nonce (new_object s.db a no_account) 0) (reset_object_change prev) v
        l.alive refl (reset_back s prev a _ k l)

  pub Found-peek :
      {s s' : StateDb Trie} {a : ℕ} {r : Option (StateObject Trie)}
      → Found s a s' r
      → r ≡ none
      → peek s' a ≡ none
  unfolding peek
  Found-peek {s} {a = a} (missing e _ p q) h = subst (λ t. peek t a ≡ none) (sym q) p
  Found-peek (live o e _ _ _) h = cc
  Found-peek (loaded o e _ _ _ _ _) h = cc

  pub Found-IsLive :
      {s s' : StateDb Trie} {a : ℕ} {r : Option (StateObject Trie)} (o : StateObject Trie)
      → Found s a s' r
      → Inv s
      → r ≡ some o
      → (o.address ≡ a) × IsLive s' o
  Found-IsLive {s} {s'} {a} o found v h =
      let hold = Found-some o found v h in
      (
        hold.address,
        record {
          alive = hold.alive;
          shown =
              subst (λ b. (world s').accounts b ≡ some (view_object s'.db o)) (sym hold.address)
                (rw (Found-world found, (Found-Frame found).dbs) hold.shown);
        },
      )

  -- The state that `createObject` leaves, and its new object.
  create_object-Step : (s : StateDb Trie) (a : ℕ) → Inv s → Step s (create_object s a).0
  unfolding create_object
  create_object-Step s a v =
      let found = get_state_object-Found s a in
      let first = Step-get s a v in
      Step-trans first (
        replace_object-Step (get_state_object s a).0 a (get_state_object s a).1 first.inv
          (Found-peek found) (λ o e. Found-IsLive o found v e))

  shown-set_state_object :
      (s : StateDb Trie) (o : StateObject Trie)
      → o.deleted ≡ false
      → (world (set_state_object s o)).accounts o.address ≡ some (view_object s.db o)
  shown-set_state_object s o d =
      ap (λ (w : World). w.accounts o.address) (world-set_state_object s o) ∙ ground arith

  replace_object-IsLive :
      (s : StateDb Trie) (a : ℕ) (prev : Option (StateObject Trie))
      → IsLive (replace_object s a prev).0 (replace_object s a prev).1
  unfolding replace_object
  replace_object-IsLive s a none = record {
    alive = refl;
    shown = shown-set_state_object (log_change s (create_object_change a)) _ refl;
  }
  replace_object-IsLive s a (some prev) = record {
    alive = refl;
    shown = shown-set_state_object (log_change s (reset_object_change prev)) _ refl;
  }

  -- `GetOrNewStateObject` is a step, and its object is live.
  pub get_or_new-Step :
      (s : StateDb Trie) (a : ℕ)
      → Inv s
      → Step s (get_or_new_state_object s a).0
        × IsLive (get_or_new_state_object s a).0 (get_or_new_state_object s a).1
  unfolding get_or_new_state_object new_if_missing
  get_or_new-Step s a v =
      go (get_state_object s a).0 (get_state_object s a).1 (get_state_object-Found s a)
        (Step-get s a v)
    where
      go :
          (s' : StateDb Trie) (r : Option (StateObject Trie))
          → Found s a s' r
          → Step s s'
          → Step s (new_if_missing (s', r) a).0
            × IsLive (new_if_missing (s', r) a).0 (new_if_missing (s', r) a).1
      go s' none found first = (
        Step-trans first (create_object-Step s' a first.inv),
        unfold create_object in
            replace_object-IsLive (get_state_object s' a).0 a (get_state_object s' a).1,
      )
      go s' (some o) found first =
          let (k, l) = Found-IsLive o found v refl in simp l.alive (first, l)

  world_twice :
      (s : StateDb Trie) (e : Entry Trie) (o : StateObject Trie) (b : ℤ)
      → world (set_state_object (set_state_object (log_change s e) o) (set_object_balance o b))
        ≡ set_account (world s) o.address (view_option s.db (visible (set_object_balance o b)))
  world_twice s e o b =
      let o' : StateObject Trie = set_object_balance o b in
      world-set_state_object (set_state_object (log_change s e) o) o'
      ∙ ap (λ (w : World). set_account w o.address (view_option s.db (visible o')))
          (world-set_state_object (log_change s e) o
            ∙ ap (λ (w : World). set_account w o.address (view_option s.db (visible o)))
                (world-log_change s e))
      ∙ set_account_twice (world s) o.address (view_option s.db (visible o))
          (view_option s.db (visible o'))

  carry_balance-Step :
      (s : StateDb Trie) (a : ℕ) (prev : Option (StateObject Trie))
      → Inv s
      → Step s (replace_object s a prev).0
      → ((o : StateObject Trie) → prev ≡ some o → (o.address ≡ a) × IsLive s o)
      → Step s (carry_balance ((replace_object s a prev).0, (replace_object s a prev).1, prev))
  unfolding replace_object carry_balance
  carry_balance-Step s a none v replaced present = replaced
  carry_balance-Step s a (some prev) v replaced present =
      let (k, l) = present prev refl in
      let o : StateObject Trie = set_object_nonce (new_object s.db a no_account) 0 in
      let e = reset_object_change prev in
      Step-logged s
        (set_state_object (set_state_object (log_change s e) o)
          (set_object_balance o prev.account.balance))
        e
        (set_state_object-Inv (set_object_balance o prev.account.balance)
          (set_state_object-Inv o (log_change-Inv e v l.alive) refl) refl)
        refl refl refl refl refl
        (rw (world_twice s e o prev.account.balance) (reset_back s prev a _ k l))

  -- `CreateAccount`: the balance is carried over without an entry of its own.
  pub create_account-Step : (s : StateDb Trie) (a : ℕ) → Inv s → Step s (create_account s a)
  unfolding create_account create_object
  create_account-Step s a v =
      let found = get_state_object-Found s a in
      let first = Step-get s a v in
      let s' = (get_state_object s a).0 in
      let prev = (get_state_object s a).1 in
      let present = λ (o : StateObject Trie) (e : prev ≡ some o). Found-IsLive o found v e in
      Step-trans first (
        carry_balance-Step s' a prev first.inv
          (replace_object-Step s' a prev first.inv (Found-peek found) present) present)
