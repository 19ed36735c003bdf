-- ===== src/Util/Align/Rounding.antt =====
-- `RoundToNext512` in src/util/os_utils.h against the aligned numbers.
use gobjfs.Base.{ℕ, ◌+◌, ◌^◌, ◌≤◌, ◌<◌, ◌≡◌, true, arith, ◌↔◌}
use gobjfs.Util.Align.{is_direct_io_aligned, round_to_next_512}

-- Below 4 GiB less a block, the result is the least aligned number that is not below the input:
-- it is aligned, it is no smaller, and no aligned number lies between.
pub round_to_next_512_least :
    (n : ℕ)
    → n + 511 < 2 ^ 32
    → (is_direct_io_aligned (round_to_next_512 n) ≡ true)
      × (n ≤ round_to_next_512 n)
      × ((m : ℕ) → is_direct_io_aligned m ≡ true → n ≤ m → round_to_next_512 n ≤ m)
unfolding is_direct_io_aligned round_to_next_512
round_to_next_512_least n h = (ground arith, ground arith, λ m a le. ground arith)

-- A number is left alone by rounding exactly when it is aligned, below 4 GiB less a block.
pub round_to_next_512_fixed :
    (n : ℕ) → n + 511 < 2 ^ 32 → (round_to_next_512 n ≡ n) ↔ (is_direct_io_aligned n ≡ true)
unfolding is_direct_io_aligned round_to_next_512
round_to_next_512_fixed n h = (λ e. ground arith, λ a. ground arith)

-- From 4 GiB less a block on, the rounded size is smaller than the size that was given.
pub round_to_next_512_truncates :
    (n : ℕ) → 2 ^ 32 ≤ n + 511 → n + 511 < 2 ^ 64 → round_to_next_512 n < n
unfolding round_to_next_512
round_to_next_512_truncates n h k = omega arith

pub round_to_next_512-lt : (n : ℕ) → n + 511 < 2 ^ 32 → round_to_next_512 n < n + 512
unfolding round_to_next_512
round_to_next_512-lt n h = omega arith
