-- ===== src/Vm/Stack.antt =====
-- core/vm/stack.go and core/vm/stack_table.go. The top of the stack stands first, so that
-- `data[len-1-i]` is at the index `i`. `none` is the panic of an index out of range. The pool of
-- integers that `dup` takes a new one from is left out.
use kkchain.Base.{
  ℕ, zero, suc, ◌+◌, ◌-◌, ◌≤◌, ◌<◌, List, [], ◌∷◌, Option, none, some, ltb, if◌then◌else◌, length,
  get_elem?, set_nth, ◌>>=◌, bind_some, some_inj, Bool-cases, inl, inr, ◌≡◌, refl, ap, sym, arith,
}

pub data StackError : Type 0 where
  stack_underflow stack_limit_reached : StackError

-- params.StackLimit
abbrev pub stack_limit : ℕ
stack_limit = 1024

abbrev pub or_limit : ℕ → Option StackError → Option StackError
or_limit after (some e) = some e
or_limit after none = if ltb stack_limit after then some stack_limit_reached else none

module _ {A : Type 0} where
  -- `push`
  unfoldable pub push : A → List A → List A
  push x st = x ∷ st

  -- `pop`
  unfoldable pub pop : List A → Option (A × List A)
  pop [] = none
  pop (x ∷ st) = some (x, st)

  -- `peek`
  unfoldable pub peek_top : List A → Option A
  peek_top st = get_elem? st 0

  -- `Back`
  unfoldable pub back : ℕ → List A → Option A
  back n st = get_elem? st n

  -- `swap`: the old top to the place `n - 1` from the top, and the element there to the top.
  unfoldable pub swap : ℕ → List A → Option (List A)
  swap zero st = none
  swap (suc k) st =
      get_elem? st k >>= λ y. get_elem? st 0 >>= λ x. some (set_nth 0 y (set_nth k x st))

  -- `dup`
  unfoldable pub dup : ℕ → List A → Option (List A)
  unfolding push
  dup zero st = none
  dup (suc k) st = get_elem? st k >>= λ x. some (push x st)

  -- `require`
  unfoldable pub require : ℕ → List A → Option StackError
  require n st = if ltb (length st) n then some stack_underflow else none

  -- `makeStackFunc`
  unfoldable pub make_stack_func : ℕ → ℕ → List A → Option StackError
  unfolding require
  make_stack_func pops pushes st = or_limit (length st + pushes - pops) (require pops st)

  -- `makeDupStackFunc`
  unfoldable pub make_dup_stack_func : ℕ → List A → Option StackError
  unfolding make_stack_func
  make_dup_stack_func n = make_stack_func n (n + 1)

  -- `makeSwapStackFunc`
  unfoldable pub make_swap_stack_func : ℕ → List A → Option StackError
  unfolding make_stack_func
  make_swap_stack_func n = make_stack_func n n

  at_index : (st : List A) (k : ℕ) → k < length st → (x : A) × (get_elem? st k ≡ some x)
  at_index [] k h = absurd (omega (arith, h))
  at_index (x ∷ st) zero h = (x, refl)
  at_index (x ∷ st) (suc k) h = at_index st k (omega (arith, h))

  checked :
      (pops pushes : ℕ) (st : List A)
      → make_stack_func pops pushes st ≡ none
      → (pops ≤ length st) × (length st + pushes - pops ≤ stack_limit)
  unfolding make_stack_func require
  checked pops pushes st e = elim (Bool-cases (ltb (length st) pops)) [
    | inl l ↦ absurd (ground (arith, e, l))
    | inr l ↦ (ground (arith, l), ground (arith, e, l))
  ]

  -- A DUP that the stack check lets pass does not panic, and leaves the stack one longer, within the
  -- limit, with the element at the place `n - 1` from the top on it.
  pub dup-make_dup_stack_func :
      (k : ℕ) (st : List A)
      → make_dup_stack_func (suc k) st ≡ none
      → (x : A) × (get_elem? st k ≡ some x)
        × (dup (suc k) st ≡ some (x ∷ st))
        × (length (x ∷ st) ≤ stack_limit)
  unfolding make_dup_stack_func dup push
  dup-make_dup_stack_func k st e =
      let (long, fits) = checked (suc k) (suc k + 1) st e in
      let (x, at) = at_index st k (omega (arith, long)) in
      (x, at, bind_some _ at refl, omega (arith, fits, long))

  set_nth_back :
      (st : List A) (k : ℕ) (x y : A)
      → get_elem? st k ≡ some y
      → (get_elem? (set_nth k x st) k ≡ some x) × (set_nth k y (set_nth k x st) ≡ st)
  unfolding set_nth
  set_nth_back [] k x y e = cc
  set_nth_back (z ∷ st) zero x y e = (refl, ap (λ (w : A). w ∷ st) (sym (some_inj e)))
  set_nth_back (z ∷ st) (suc k) x y e =
      let (a, b) = set_nth_back st k x y e in (a, ap (λ (r : List A). z ∷ r) b)

  -- A SWAP that the stack check lets pass does not panic, and a second one gives the stack back.
  pub swap-swap :
      (k : ℕ) (st : List A)
      → make_swap_stack_func (suc k) st ≡ none
      → (st' : List A) × (swap (suc k) st ≡ some st') × (swap (suc k) st' ≡ some st)
  unfolding make_swap_stack_func swap set_nth
  swap-swap k [] e = absurd (omega (arith, (checked (suc k) (suc k) [] e).0))
  swap-swap zero (x ∷ st) e = (x ∷ st, refl, refl)
  swap-swap (suc k) (x ∷ st) e =
      let (long, _) = checked (suc (suc k)) (suc (suc k)) (x ∷ st) e in
      let (y, at) = at_index st k (omega (arith, long)) in
      let (again, same) = set_nth_back st k x y at in
      (
        y ∷ set_nth k x st,
        bind_some _ at refl,
        bind_some _ again (ap some (ap (λ (r : List A). x ∷ r) same)),
      )
