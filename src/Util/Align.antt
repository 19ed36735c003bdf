-- ===== src/Util/Align.antt =====
-- src/util/os_utils.h: the alignment rules of direct I/O.
pub mod Rounding
use gobjfs.Base.{ℕ, ◌+◌, ◌-◌, ◌*◌, ◌/◌, ◌%◌, Bool, ◌||◌, ◌==◌, u32, u64}

abbrev pub direct_io_size : ℕ
direct_io_size = 512

-- `number & (DirectIOSize - 1)` is the remainder, since the size is a power of two.
unfoldable pub is_direct_io_aligned : ℕ → Bool
is_direct_io_aligned number = number == 0 || number % direct_io_size == 0

-- `multiple` is a `uint32_t`, so the mask `~(multiple - 1)` is 0xfffffe00 also where it meets the
-- 64-bit sum: the upper half of the sum is lost.
unfoldable pub round_to_next_512 : ℕ → ℕ
round_to_next_512 num_to_round =
    u32 (u64 (num_to_round + direct_io_size - 1)) / direct_io_size * direct_io_size
