-- ===== src/State/Setters.antt =====
-- The methods of core/state that change an account, as steps.
use kkchain.Base.{
  ℕ, List, Option, some, false, ◌==◌, update_back, sym, subst, Bool-cases, ◌≡◌, refl, ap, ◌∙◌, inl,
  inr, ℤ,
}
use kkchain.State.Types.{
  Backend, StateObject, StateDb, balance_change, nonce_change, storage_change, code_change,
  touch_change,
}
use kkchain.State.Object.{
  get_state_object_value, set_object_state, object_code, set_object_balance, set_object_nonce,
  set_object_code,
}
use kkchain.State.Store.{ripemd, log_change, set_state_object}
use kkchain.State.Methods.{change_balance, touch, change_nonce, change_code, change_state}
use kkchain.State.World.{AccountView, view_object, code_at, peek, world, set_account, undo}
use kkchain.State.Views.{
  view-value, view-code, view-set_balance, view-set_nonce, view-set_state, view-set_code,
  value-Kept, code-account, code-Same, code-code, code_at_self,
}
use kkchain.State.Invariant.{Inv}
use kkchain.State.Step.{Step, Step-write, Step-logged, must_back, log_change-Inv}

module _ {Trie : Type 0} where
  storage_view :
      (db : Backend Trie) (o : StateObject Trie) (key : ℕ)
      → (view_object db o).storage key ≡ (get_state_object_value db o key).0
  unfolding view_object
  storage_view db o key = refl

  -- An object that the state shows at its address.
  pub record IsLive (s : StateDb Trie) (o : StateObject Trie) : Type 0 where
    pub alive : o.deleted ≡ false
    pub shown : (world s).accounts o.address ≡ some (view_object s.db o)

  pub change_balance-Step :
      (s : StateDb Trie) (o : StateObject Trie) (amount : ℤ)
      → Inv s
      → IsLive s o
      → Step s (change_balance s o amount)
  unfolding change_balance undo
  change_balance-Step s o amount v l =
      Step-write s (set_object_balance o amount) (balance_change o.address o.account.balance) v tt
        l.alive
        (must_back _ (world s) o.address (view_object s.db o) _ l.shown
          (rw (view-set_balance s.db o amount) (unfold view_object in refl)))

  pub change_nonce-Step :
      (s : StateDb Trie) (o : StateObject Trie) (nonce : ℕ)
      → Inv s
      → IsLive s o
      → Step s (change_nonce s o nonce)
  unfolding change_nonce undo
  change_nonce-Step s o nonce v l =
      Step-write s (set_object_nonce o nonce) (nonce_change o.address o.account.nonce) v tt l.alive
        (must_back _ (world s) o.address (view_object s.db o) _ l.shown
          (rw (view-set_nonce s.db o nonce) (unfold view_object in refl)))

  code_back :
      (db : Backend Trie) (o : StateObject Trie) (c : Option (List ℕ))
      → code_at db o.addr_hash o.account.code_hash c ≡ (object_code db o).0
      → record (view_object db o) {
        code_hash = o.account.code_hash;
        code = code_at db (view_object db o).addr_hash o.account.code_hash c;
      }
        ≡ view_object db o
  unfolding view_object
  code_back db o c p = λ i. record (view_object db o) { code = p i }

  -- A write to `o'`, which shows what `o` does.
  module _ (s : StateDb Trie) (o o' : StateObject Trie) (v : Inv s) (l : IsLive s o)
      (place : o'.address ≡ o.address) (alive : o'.deleted ≡ false)
      (views : view_object s.db o' ≡ view_object s.db o) where
    write_code :
        (prevcode : Option (List ℕ)) (h : ℕ) (code : List ℕ)
        → code_at s.db o'.addr_hash o'.account.code_hash prevcode ≡ (object_code s.db o').0
        → Step s (
            set_state_object
              (log_change s (code_change o.address prevcode o'.account.code_hash))
              (set_object_code o' h (some code)))
    unfolding undo
    write_code prevcode h code p =
        let e = code_change o.address prevcode o'.account.code_hash in
        Step-write s (set_object_code o' h (some code)) e v tt alive (
          subst
            (λ b.
              undo s.db s.trie e (
                set_account (world s) b
                  (some (view_object s.db (set_object_code o' h (some code)))))
              ≡ some (world s))
            (sym place)
            (must_back _ (world s) o.address (view_object s.db o) _ l.shown
              (rw (view-set_code s.db o' h (some code)) (code_back s.db o' prevcode p ∙ views))))

    write_state :
        (prevalue key value : ℕ)
        → (view_object s.db o').storage key ≡ prevalue
        → Step s (
            set_state_object
              (log_change s (storage_change o.address key prevalue))
              (set_object_state o' key value))
    unfolding undo
    write_state prevalue key value p =
        let e = storage_change o.address key prevalue in
        Step-write s (set_object_state o' key value) e v tt alive (
          subst
            (λ b.
              undo s.db s.trie e
                (set_account (world s) b (some (view_object s.db (set_object_state o' key value))))
              ≡ some (world s))
            (sym place)
            (must_back _ (world s) o.address (view_object s.db o) _ l.shown (
              rw (view-set_state s.db o' key value) (
                ap (λ (m : ℕ → ℕ). record (view_object s.db o') { storage = m })
                  (update_back (view_object s.db o').storage key value prevalue p)
                ∙ views))))

  pub change_code-Step :
      (s : StateDb Trie) (o : StateObject Trie) (h : ℕ) (code : List ℕ)
      → Inv s
      → IsLive s o
      → Step s (change_code s o h code)
  unfolding change_code
  change_code-Step s o h code v l =
      let same = code-Same s.db o in
      write_code s o (object_code s.db o).1 v l same.0 (same.3 ∙ l.alive) (view-code s.db o)
        (object_code s.db o).0 h code
        (rw (same.1, code-account s.db o) (code_at_self s.db o ∙ sym (code-code s.db o)))

  pub change_state-Step :
      (s : StateDb Trie) (o : StateObject Trie) (key value : ℕ)
      → Inv s
      → IsLive s o
      → Step s (change_state s o key value)
  unfolding change_state
  change_state-Step s o key value v l =
      let kept = value-Kept s.db o key in
      write_state s o (get_state_object_value s.db o key).1 v l kept.addresses
        (kept.deletions ∙ l.alive) (view-value s.db o key) (get_state_object_value s.db o key).0 key
        value
        (ap (λ (w : AccountView). w.storage key) (view-value s.db o key) ∙ storage_view s.db o key)

  pub touch-Step : (s : StateDb Trie) (o : StateObject Trie) → Inv s → Step s (touch s o)
  unfolding touch undo
  touch-Step s o v = elim (Bool-cases (o.address == ripemd)) [
    | inl e ↦
        rw (e, touch)
          (Step-logged s _ (touch_change o.address)
            (let w = log_change-Inv (touch_change o.address) v tt in
              record { keyed = w.keyed; cleared = w.cleared; sound = w.sound })
            refl refl refl refl refl (unfold world peek in refl))
    | inr e ↦
        rw (e, touch)
          (Step-logged s _ (touch_change o.address) (log_change-Inv (touch_change o.address) v tt)
            refl refl refl refl refl (unfold world peek in refl))
  ]
