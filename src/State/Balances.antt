-- ===== src/State/Balances.antt =====
-- What the balance methods of a StateDB do to every balance.
use kkchain.Base.{
  ℕ, Option, none, some, true, false, ◌==◌, if◌then◌else◌, Bool-cases, ◌≡◌, refl, ap, sym, ◌∙◌, inl,
  inr, arith, ℤ, ◌+ℤ◌, ◌-ℤ◌,
}
use kkchain.State.Types.{StateObject, StateDb, balance_change, create_object_change}
use kkchain.State.Object.{is_zero, set_object_balance, new_object, set_object_nonce, big_zero}
use kkchain.State.Store.{
  no_account, ripemd, log_change, get_state_object, get_or_new_state_object, new_if_missing,
  create_object, replace_object,
}
use kkchain.State.Methods.{
  change_balance, touch, add_object_balance, sub_object_balance, add_balance, sub_balance,
}
use kkchain.State.World.{AccountView, World, view_object, world, set_account, peek, stored_object}
use kkchain.State.Reads.{Found, missing, live, loaded, get_state_object-Found, Found-world}
use kkchain.State.Undo.{Found-none, Found-some, world_write}
use kkchain.State.Invariant.{Inv}
use kkchain.State.Step.{world-log_change}
use kkchain.State.Create.{Found-peek}
use kkchain.State.Answers.{field}

-- The balance that the world shows at an address.
abbrev pub balance_at : World → ℕ → ℤ
balance_at w a = field big_zero (λ v. v.balance) (w.accounts a)

pub add_zero : (x y : ℤ) → is_zero y ≡ true → x +ℤ y ≡ x
unfolding ◌+ℤ◌
add_zero x y h = ground arith

pub sub_zero : (x y : ℤ) → is_zero y ≡ true → x -ℤ y ≡ x
unfolding ◌-ℤ◌
sub_zero x y h = ground arith

balance_at-set_account :
    (w : World) (a b : ℕ) (v : AccountView)
    → balance_at (set_account w a (some v)) b ≡ (if b == a then v.balance else balance_at w b)
balance_at-set_account w a b v = ground arith

zero_elsewhere :
    (w w' : World) (a b : ℕ)
    → w' ≡ w
    → balance_at w a ≡ big_zero
    → (if b == a then big_zero else balance_at w' b) ≡ balance_at w b
zero_elsewhere w w' a b e z = elim (Bool-cases (b == a)) [
  | inl h ↦ rw h (ground (arith, z))
  | inr h ↦ rw h (ap (λ (x : World). balance_at x b) e)
]

module _ {Trie : Type 0} where
  -- A write that shows `amount` at the address of the object.
  balance-change :
      (s : StateDb Trie) (o : StateObject Trie) (amount : ℤ) (b : ℕ)
      → o.deleted ≡ false
      → balance_at (world (change_balance s o amount)) b
        ≡ (if b == o.address then amount else balance_at (world s) b)
  unfolding change_balance view_object
  balance-change s o amount b d =
      let e = balance_change o.address o.account.balance in
      ap (λ (w : World). balance_at w b)
        (world_write s (log_change s e) o.address (set_object_balance o amount) _
          (world-log_change s e) refl refl d refl)
      ∙ balance_at-set_account (world s) o.address b _

  world-touch : (s : StateDb Trie) (o : StateObject Trie) → world (touch s o) ≡ world s
  unfolding touch world peek
  world-touch s o = elim (Bool-cases (o.address == ripemd)) [ inl e ↦ rw e | inr e ↦ rw e ]

  -- `GetOrNewStateObject` moves no balance, and its object has the balance of its address.
  pub record Opens (s s' : StateDb Trie) (o : StateObject Trie) (a : ℕ) : Type 0 where
    pub place : o.address ≡ a
    pub alive : o.deleted ≡ false
    pub has : o.account.balance ≡ balance_at (world s) a
    pub same : (b : ℕ) → balance_at (world s') b ≡ balance_at (world s) b

  peek_loaded :
      (s : StateDb Trie) (o : StateObject Trie)
      → s.state_objects o.address ≡ none
      → stored_object s.db s.trie o.address ≡ some o
      → peek s o.address ≡ none
      → ⊥
  unfolding peek
  peek_loaded s o l st h = ground arith

  Found-absent :
      {s s' : StateDb Trie} {a : ℕ} {r : Option (StateObject Trie)}
      → Found s a s' r
      → peek s a ≡ none
      → r ≡ none
  unfolding peek
  Found-absent (missing e q _ _) h = q
  Found-absent (live o e _ l d) h = ground arith
  Found-absent {s} {a = a} (loaded o e _ l st k d) h = absurd (peek_loaded s o l st (rw k h))

  -- An account that is not there starts with the balance 0 that it showed.
  created-Opens :
      (s s' : StateDb Trie) (a : ℕ) (r : Option (StateObject Trie))
      → Found s a s' r
      → r ≡ none
      → Opens s (replace_object s' a r).0 (replace_object s' a r).1 a
  unfolding replace_object view_object
  created-Opens s s' a (some o) found h = cc
  created-Opens s s' a none found h =
      let o : StateObject Trie = set_object_nonce (new_object s'.db a no_account) 0 in
      let e = create_object_change a in
      let zero_at : balance_at (world s) a ≡ big_zero = rw ((Found-none found refl).1, field) in
      record {
        place = refl;
        alive = refl;
        has = sym zero_at;
        same = λ b.
            ap (λ (w : World). balance_at w b)
              (world_write s' (log_change s' e) a o _ (world-log_change s' e) refl refl refl refl)
            ∙ balance_at-set_account (world s') a b (view_object s'.db o)
            ∙ zero_elsewhere (world s) (world s') a b (Found-world found) zero_at;
      }

  get_or_new-Opens :
      (s : StateDb Trie) (a : ℕ)
      → Inv s
      → Opens s (get_or_new_state_object s a).0 (get_or_new_state_object s a).1 a
  unfolding get_or_new_state_object new_if_missing
  get_or_new-Opens s a v =
      go (get_state_object s a).0 (get_state_object s a).1 (get_state_object-Found s a)
    where
      go :
          (s' : StateDb Trie) (r : Option (StateObject Trie))
          → Found s a s' r
          → Opens s (new_if_missing (s', r) a).0 (new_if_missing (s', r) a).1 a
      go s' none found =
          let again = get_state_object-Found s' a in
          let opens =
            created-Opens s' (get_state_object s' a).0 a (get_state_object s' a).1 again
              (Found-absent again (Found-peek found refl)) in
          unfold create_object in
          record {
            place = opens.place;
            alive = opens.alive;
            has = opens.has ∙ ap (λ (w : World). balance_at w a) (Found-world found);
            same = λ b. opens.same b ∙ ap (λ (w : World). balance_at w b) (Found-world found);
          }
      go s' (some o) found =
          let hold = Found-some o found v refl in
          let opens : Opens s s' o a = record {
            place = hold.address;
            alive = hold.alive;
            has = rw (hold.shown, field) (unfold view_object in refl);
            same = λ b. ap (λ (w : World). balance_at w b) (Found-world found);
          } in
          simp hold.alive opens

  -- The object-level methods, on an object with the balance of its address.
  add_object-balance :
      (s : StateDb Trie) (o : StateObject Trie) (amount : ℤ) (b : ℕ)
      → o.deleted ≡ false
      → o.account.balance ≡ balance_at (world s) o.address
      → balance_at (world (add_object_balance s o amount)) b
        ≡ (if b == o.address then balance_at (world s) b +ℤ amount else balance_at (world s) b)
  unfolding add_object_balance
  add_object-balance s o amount b d h = ground (
    arith,
    balance-change s o (o.account.balance +ℤ amount) b,
    ap (λ (w : World). balance_at w b) (world-touch s o),
    add_zero (balance_at (world s) b) amount,
  )

  sub_object-balance :
      (s : StateDb Trie) (o : StateObject Trie) (amount : ℤ) (b : ℕ)
      → o.deleted ≡ false
      → o.account.balance ≡ balance_at (world s) o.address
      → balance_at (world (sub_object_balance s o amount)) b
        ≡ (if b == o.address then balance_at (world s) b -ℤ amount else balance_at (world s) b)
  unfolding sub_object_balance
  sub_object-balance s o amount b d h = ground (
    arith,
    balance-change s o (o.account.balance -ℤ amount) b,
    sub_zero (balance_at (world s) b) amount,
  )

  module _ (s : StateDb Trie) (a : ℕ) (amount : ℤ) (v : Inv s) (b : ℕ) where
    -- AddBalance adds the amount at its address and leaves every other balance.
    pub balance_at-add_balance :
        balance_at (world (add_balance s a amount)) b
        ≡ (if b == a then balance_at (world s) b +ℤ amount else balance_at (world s) b)
    unfolding add_balance
    balance_at-add_balance =
        let opens = get_or_new-Opens s a v in
        ground (
          arith,
          add_object-balance (get_or_new_state_object s a).0 (get_or_new_state_object s a).1 amount
              b,
          opens.place,
          opens.alive,
          opens.has,
          opens.same a,
          opens.same b,
        )

    -- SubBalance subtracts the amount at its address, below 0 too, and leaves every other balance.
    pub balance_at-sub_balance :
        balance_at (world (sub_balance s a amount)) b
        ≡ (if b == a then balance_at (world s) b -ℤ amount else balance_at (world s) b)
    unfolding sub_balance
    balance_at-sub_balance =
        let opens = get_or_new-Opens s a v in
        ground (
          arith,
          sub_object-balance (get_or_new_state_object s a).0 (get_or_new_state_object s a).1 amount
              b,
          opens.place,
          opens.alive,
          opens.has,
          opens.same a,
          opens.same b,
        )
