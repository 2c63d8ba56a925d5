-- ===== src/Vm/Words.antt =====
-- core/vm/common.go, the safe operations of common/math/integer.go, and `RightPadBytes` of
-- common/bytes.go. `none` is the panic of a slice out of range.
use kkchain.Base.{
  ℕ, zero, suc, ◌+◌, ◌-◌, ◌*◌, ◌/◌, ◌%◌, ◌^◌, ◌≤◌, ◌<◌, List, [], ◌∷◌, ◌++◌, Option, none, some,
  Bool, true, false, ◌&&◌, ◌||◌, ◌==◌, if◌then◌else◌, ltb, length, take, drop, ◌≡◌, arith, ◌>>=◌,
  not, ℤ, pos, pos_part, ◌-ℤ◌, ltb_ℤ,
}

abbrev pub max_uint64 : ℕ
max_uint64 = 18446744073709551615

-- `toWordSize`
unfoldable pub to_word_size : ℕ → ℕ
to_word_size size =
    if ltb (max_uint64 - 31) size then max_uint64 / 32 + 1 else (size + 31) % (2 ^ 64) / 32

-- `allZero`
unfoldable pub all_zero : List ℕ → Bool
all_zero [] = true
all_zero (b ∷ bs) = (b == 0) && all_zero bs

-- `SafeSub`, `SafeAdd` and `SafeMul`
unfoldable pub safe_sub : ℕ → ℕ → ℕ × Bool
safe_sub x y = ((2 ^ 64 + x - y) % (2 ^ 64), ltb x y)

unfoldable pub safe_add : ℕ → ℕ → ℕ × Bool
safe_add x y = ((x + y) % (2 ^ 64), ltb (max_uint64 - x) y)

unfoldable pub safe_mul : ℕ → ℕ → ℕ × Bool
safe_mul x y =
    if (x == 0) || (y == 0) then (0, false) else ((x * y) % (2 ^ 64), ltb (max_uint64 / x) y)

unfoldable pub zeros : ℕ → List ℕ
zeros zero = []
zeros (suc n) = 0 ∷ zeros n

-- `int(size)` of a uint64 with 64 bits
unfoldable pub int_of : ℕ → ℤ
unfolding ◌-ℤ◌
int_of size = if ltb size (2 ^ 63) then pos size else pos size -ℤ pos (2 ^ 64)

-- The most bytes that `make` can allocate on a 64-bit machine; for more it panics.
abbrev pub max_alloc : ℕ
max_alloc = 2 ^ 48

-- `RightPadBytes`
unfoldable pub right_pad_bytes : List ℕ → ℤ → Option (List ℕ)
unfolding zeros
right_pad_bytes slice l =
    if not (ltb_ℤ (pos (length slice)) l)
    then some slice
    else if ltb max_alloc (pos_part l)
    then none
    else some (slice ++ zeros (pos_part l - length slice))

-- `data[start:end]`, for an end that is at most the length or below the start
unfoldable pub slice : List ℕ → ℕ → ℕ → Option (List ℕ)
slice bytes start end =
    if ltb end start || ltb (length bytes) end
    then none
    else some (take (end - start) (drop start bytes))

abbrev pub at_most : ℕ → ℕ → ℕ
at_most limit n = if ltb limit n then limit else n

-- `getData`
unfoldable pub get_data : List ℕ → ℕ → ℕ → Option (List ℕ)
unfolding slice right_pad_bytes int_of
get_data bytes start size =
    let from = at_most (length bytes) start in
    let to = at_most (length bytes) ((from + size) % (2 ^ 64)) in
    slice bytes from to >>= λ part. right_pad_bytes part (int_of size)

-- The word size of a uint64 is the least number of words of 32 bytes that hold it.
pub to_word_size_lem :
    (size : ℕ)
    → size ≤ max_uint64
    → (size ≤ to_word_size size * 32) × (to_word_size size * 32 < size + 32)
unfolding to_word_size
to_word_size_lem size h = (ground arith, ground arith)

-- The flags of SafeAdd and SafeSub tell whether the result is not the sum or the difference of the
-- operands, two uint64.
pub safe_add_sub_lem :
    (x y : ℕ)
    → x ≤ max_uint64
    → y ≤ max_uint64
    → ((safe_add x y).1 ≡ ltb max_uint64 (x + y))
      × ((safe_add x y).1 ≡ false → (safe_add x y).0 ≡ x + y)
      × ((safe_sub x y).1 ≡ false → (safe_sub x y).0 + y ≡ x)
      × ((safe_sub x y).1 ≡ true → (safe_sub x y).0 + y ≡ x + 2 ^ 64)
unfolding safe_add safe_sub
safe_add_sub_lem x y h k =
    (ground arith, λ e. ground (arith, e), λ e. ground (arith, e), λ e. ground (arith, e))
