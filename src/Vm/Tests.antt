-- ===== src/Vm/Tests.antt =====
-- The stack, memory sizes and data at concrete values.
use kkchain.Base.{
  none, ◌≤◌, ◌<◌, ◌^◌, ℕ, ◌+◌, ◌*◌, ◌^◌, ◌≤◌, ◌<◌, List, [], ◌∷◌, some, none, true, false, ltb,
  length, get_elem?, ◌≡◌, refl, arith,
}
use kkchain.Vm.Stack.{
  stack_limit, swap, dup, require, make_stack_func, make_dup_stack_func, make_swap_stack_func,
  dup-make_dup_stack_func, swap-swap,
}
use kkchain.Vm.Words.{
  max_uint64, to_word_size, safe_add, safe_sub, to_word_size_lem, safe_add_sub_lem,
}

dup_passes : make_dup_stack_func {A = ℕ} 2 (7 ∷ 8 ∷ []) ≡ none
unfolding make_dup_stack_func make_stack_func require
dup_passes = refl

swap_passes : make_swap_stack_func {A = ℕ} 3 (7 ∷ 8 ∷ 9 ∷ []) ≡ none
unfolding make_swap_stack_func make_stack_func require
swap_passes = refl

dup-make_dup_stack_func_example :
    (x : ℕ) × (get_elem? {A = ℕ} (7 ∷ 8 ∷ []) 1 ≡ some x)
    × (dup {A = ℕ} 2 (7 ∷ 8 ∷ []) ≡ some (x ∷ 7 ∷ 8 ∷ []))
    × (length {A = ℕ} (x ∷ 7 ∷ 8 ∷ []) ≤ stack_limit)
dup-make_dup_stack_func_example = dup-make_dup_stack_func 1 (7 ∷ 8 ∷ []) dup_passes

swap-swap_example :
    (st : List ℕ) × (swap {A = ℕ} 3 (7 ∷ 8 ∷ 9 ∷ []) ≡ some st)
    × (swap 3 st ≡ some (7 ∷ 8 ∷ 9 ∷ []))
swap-swap_example = swap-swap 2 (7 ∷ 8 ∷ 9 ∷ []) swap_passes

to_word_size_lem_example : (33 ≤ to_word_size 33 * 32) × (to_word_size 33 * 32 < 65)
to_word_size_lem_example = to_word_size_lem 33 (omega arith)

safe_add_sub_lem_example :
    ((safe_add 3 5).1 ≡ ltb max_uint64 8)
    × ((safe_add 3 5).1 ≡ false → (safe_add 3 5).0 ≡ 8)
    × ((safe_sub 3 5).1 ≡ false → (safe_sub 3 5).0 + 5 ≡ 3)
    × ((safe_sub 3 5).1 ≡ true → (safe_sub 3 5).0 + 5 ≡ 3 + 2 ^ 64)
safe_add_sub_lem_example = safe_add_sub_lem 3 5 (omega arith) (omega arith)
