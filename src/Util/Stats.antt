-- ===== src/Util/Stats.antt =====
-- src/util/Stats.h: StatsCounter and Histogram at int64_t, MinValue and MaxValue at uint32_t.
-- Floating point enters as `FloatOps`: the running mean and the squared differences are computed by
-- its operations, in the source's order.
pub mod Counter
pub mod Buckets
use gobjfs.Base.{
  ℕ, zero, suc, ◌+◌, ◌-◌, ◌/◌, ◌^◌, ℤ, pos, negsuc, ltb_ℤ, Bool, true, false, List, [], ◌∷◌, ltb,
  leb, if◌then◌else◌, u32, Outcome, done, fault, Fault, ◌>>=◌, ◌>>◌, assert, replicate, length,
}

pub record FloatOps : Type 1 where
  pub Float : Type 0
  pub of_int : ℤ → Float
  pub of_count : ℕ → Float
  pub add : Float → Float → Float
  pub sub : Float → Float → Float
  pub mul : Float → Float → Float
  pub div : Float → Float → Float

abbrev pub int64_max : ℤ
int64_max = pos (2 ^ 63 - 1)

abbrev pub int64_min : ℤ
int64_min = negsuc (2 ^ 63 - 1)

module _ (ops : FloatOps) where
  open ops use {Float, of_int, of_count, add, sub, mul, div}

  pub record StatsCounter : Type 0 where
    pub min : ℤ
    pub max : ℤ
    pub mean : Float
    pub mean_squared : Float
    pub num_samples : ℕ

  unfoldable pub new_counter : StatsCounter
  new_counter = record {
    min = int64_max;
    max = int64_min;
    mean = of_count 0;
    mean_squared = of_count 0;
    num_samples = 0;
  }

  unfoldable pub update_stats : StatsCounter → ℤ → Outcome StatsCounter
  update_stats c x =
      let n = u32 (c.num_samples + 1) in
      let delta = sub (of_int x) c.mean in
      let mean' = add c.mean (div delta (of_count n)) in
      assert (ltb 0 n)
      >> done (record {
        min = if ltb_ℤ x c.min then x else c.min;
        max = if ltb_ℤ c.max x then x else c.max;
        mean = mean';
        mean_squared = add c.mean_squared (mul delta (sub (of_int x) mean'));
        num_samples = n;
      })

  -- `a = x` for each sample in turn.
  unfoldable pub feed : StatsCounter → List ℤ → Outcome StatsCounter
  feed c [] = done c
  feed c (x ∷ xs) = update_stats c x >>= λ c'. feed c' xs

  -- `operator+=`, for the averages of several threads.
  unfoldable pub merge : StatsCounter → StatsCounter → StatsCounter
  merge c d =
      let total = of_count (u32 (c.num_samples + d.num_samples)) in
      record {
        min = if ltb_ℤ c.min d.min then c.min else d.min;
        max = if ltb_ℤ d.max c.max then c.max else d.max;
        mean =
            div (add (mul c.mean (of_count c.num_samples)) (mul d.mean (of_count d.num_samples)))
              total;
        mean_squared =
            div
              (add (mul c.mean_squared (of_count c.num_samples))
                (mul d.mean_squared (of_count d.num_samples)))
              total;
        num_samples = u32 (c.num_samples + d.num_samples);
      }

-- `floor(log10(n))` for a positive int64_t: 19 digits at most, so 20 rounds are enough.
pub floor_log10 : ℕ → ℕ → ℕ
floor_log10 zero n = 0
floor_log10 (suc f) n = let rest = floor_log10 f (n / 10) in if ltb n 10 then 0 else suc rest

pub bucket : ℕ → ℕ
bucket n = floor_log10 20 n

abbrev pub max_digits_in_type : ℕ
max_digits_in_type = 18 + 1 + 2

pub record Histogram : Type 0 where
  pub buckets : List ℕ
  pub num_samples : ℕ

unfoldable pub new_histogram : Histogram
new_histogram = record { buckets = replicate max_digits_in_type 0; num_samples = 0 }

-- `buckets_[buck]++`
pub increment : List ℕ → ℕ → List ℕ
increment [] i = []
increment (b ∷ bs) zero = u32 (b + 1) ∷ bs
increment (b ∷ bs) (suc i) = b ∷ increment bs i

-- `log10` of 0 is -inf and of a negative number is NaN; to cast either to uint16_t is undefined.
unfoldable pub add_sample : Histogram → ℤ → Outcome Histogram
unfolding increment
add_sample h (negsuc n) = fault Fault.undefined_cast
add_sample h (pos zero) = fault Fault.undefined_cast
add_sample h (pos (suc n)) =
    let buck = bucket (suc n) in
    assert (ltb buck max_digits_in_type)
    >> done (record { buckets = increment h.buckets buck; num_samples = u32 (h.num_samples + 1) })

-- `operator+=`
pub add_buckets : List ℕ → List ℕ → List ℕ
add_buckets [] ys = []
add_buckets (x ∷ xs) [] = x ∷ xs
add_buckets (x ∷ xs) (y ∷ ys) = u32 (x + y) ∷ add_buckets xs ys

unfoldable pub merge_histogram : Histogram → Histogram → Histogram
unfolding add_buckets
merge_histogram h k = record {
  buckets = add_buckets h.buckets k.buckets;
  num_samples = u32 (h.num_samples + k.num_samples);
}

-- MinValue and MaxValue: the assignment keeps the extreme of all assigned values.
unfoldable pub assign_min : ℕ → ℕ → ℕ
assign_min m val = if ltb val m then val else m

unfoldable pub assign_max : ℕ → ℕ → ℕ
assign_max m val = if ltb m val then val else m
