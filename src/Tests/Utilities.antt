-- ===== src/Tests/Utilities.antt =====
-- The sizes, the statistics and the jobs on concrete values.
use gobjfs.Base.{
  ℕ, suc, ◌+◌, ◌-◌, ◌*◌, ◌/◌, ◌≤◌, ◌<◌, ◌≡◌, refl, ℤ, pos, negsuc, true, false, [], ◌∷◌, arith,
  Returns, u32,
}
use gobjfs.Util.Align.{is_direct_io_aligned, round_to_next_512}
use gobjfs.Util.Align.Rounding.{round_to_next_512_least, round_to_next_512_truncates}
use gobjfs.Util.Stats.{
  FloatOps, StatsCounter, new_counter, feed, new_histogram, add_sample, increment, merge_histogram,
}
use gobjfs.Util.Stats.Counter.{Holds, feed-Holds}
use gobjfs.Util.Stats.Buckets.{
  IsValid, power_of_ten, new_histogram-IsValid, add_sample-IsValid, merge_histogram-IsValid,
}
use gobjfs.Job.{set_buffer, is_valid}
use gobjfs.Job.Buffer.{set_buffer_lem, is_valid-set_buffer}
use gobjfs.Tests.Data.{read_job}

round_example :
    (is_direct_io_aligned (round_to_next_512 700) ≡ true)
    × (700 ≤ round_to_next_512 700)
    × ((m : ℕ) → is_direct_io_aligned m ≡ true → 700 ≤ m → round_to_next_512 700 ≤ m)
round_example = round_to_next_512_least 700 (omega arith)

truncated_example : round_to_next_512 4294967296 < 4294967296
truncated_example = round_to_next_512_truncates 4294967296 (omega arith) (omega arith)

set_buffer_example :
    let j = set_buffer 0 4096 700 read_job in
    (is_direct_io_aligned j.size ≡ true)
    × (j.user_size ≤ j.size)
    × (j.size < j.user_size + 512)
    × (j.user_size ≡ 700)
    × (j.op ≡ read_job.op)
    × (j.addr ≡ read_job.addr)
set_buffer_example = set_buffer_lem 0 4096 700 read_job (omega arith)

is_valid_example : is_valid true (set_buffer 0 4096 512 read_job) ≡ false
is_valid_example = is_valid-set_buffer true 0 4096 512 read_job (omega arith) refl

add_sample_example : Returns (add_sample new_histogram (pos 1234)) λ k.
    IsValid k
    × (b : ℕ) × (power_of_ten b ≤ 1234)
    × (1234 < power_of_ten (suc b))
    × (k.buckets ≡ increment new_histogram.buckets b)
add_sample_example =
    add_sample-IsValid new_histogram 1234 new_histogram-IsValid (omega arith) (omega arith)

merge_histogram_example :
    IsValid (merge_histogram new_histogram new_histogram)
    × ((merge_histogram new_histogram new_histogram).num_samples
        ≡ u32 (new_histogram.num_samples + new_histogram.num_samples))
merge_histogram_example =
    merge_histogram-IsValid new_histogram new_histogram new_histogram-IsValid new_histogram-IsValid

abbrev whole : ℤ → ℕ
whole (pos n) = n
whole (negsuc n) = 0

-- Natural numbers in place of floating point.
abbrev whole_numbers : FloatOps
whole_numbers = record {
  Float = ℕ;
  of_int = whole;
  of_count = λ n. n;
  add = λ a b. a + b;
  sub = λ a b. a - b;
  mul = λ a b. a * b;
  div = λ a b. a / b;
}

abbrev empty : StatsCounter whole_numbers
empty = new_counter whole_numbers

empty-empty : empty.num_samples ≡ 0
unfolding new_counter
empty-empty = refl

feed_example :
    Returns
      (feed whole_numbers empty (pos 3 ∷ pos 8 ∷ []))
      (Holds whole_numbers empty (pos 3 ∷ pos 8 ∷ []))
feed_example = feed-Holds whole_numbers empty (pos 3 ∷ pos 8 ∷ []) (omega (arith, empty-empty))
