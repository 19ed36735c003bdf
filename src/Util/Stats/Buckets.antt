-- ===== src/Util/Stats/Buckets.antt =====
-- The log-scale buckets.
use gobjfs.Base.{
  ℕ, zero, suc, ◌+◌, ◌*◌, ◌/◌, ◌%◌, ◌^◌, ◌≤◌, ◌<◌, ◌≡◌, pos, List, [], ◌∷◌, length, arith, u32,
  Returns, ltb, Bool-cases, inl, inr, refl, ◌∙◌, sym, lt→ltb,
}
use gobjfs.Util.Stats.{
  floor_log10, bucket, increment, Histogram, new_histogram, add_sample, max_digits_in_type,
  merge_histogram, add_buckets,
}

abbrev pub sum : List ℕ → ℕ
sum [] = 0
sum (x ∷ xs) = x + sum xs

abbrev pub power_of_ten : ℕ → ℕ
power_of_ten zero = 1
power_of_ten (suc k) = 10 * power_of_ten k

floor_log10-bounds :
    (f n : ℕ)
    → 0 < n
    → n < power_of_ten f
    → let k = floor_log10 f n in (power_of_ten k ≤ n) × (n < power_of_ten (suc k)) × (k < f)
unfolding floor_log10
floor_log10-bounds zero n h k = absurd (omega arith)
floor_log10-bounds (suc f) n h k = elim (Bool-cases (ltb n 10)) [
  | inl small ↦ rw small (ground arith)
  | inr large ↦ rw large (omega (arith, floor_log10-bounds f (n / 10) (ground arith) (omega arith)))
]

bucket-bounds :
    (n : ℕ)
    → 0 < n
    → n < 2 ^ 63
    → (power_of_ten (bucket n) ≤ n) × (n < power_of_ten (suc (bucket n))) × (bucket n < 20)
unfolding bucket
bucket-bounds n h k = floor_log10-bounds 20 n h (omega arith)

increment-sum :
    (bs : List ℕ) (i : ℕ)
    → i < length bs
    → (length (increment bs i) ≡ length bs) × (sum (increment bs i) % 2 ^ 32 ≡ u32 (sum bs + 1))
unfolding increment
increment-sum [] i h = absurd (omega arith)
increment-sum (b ∷ bs) zero h = (refl, omega arith)
increment-sum (b ∷ bs) (suc i) h = omega (arith, increment-sum bs i (omega arith))

add_buckets-sum :
    (xs ys : List ℕ)
    → length xs ≡ length ys
    → (length (add_buckets xs ys) ≡ length xs)
      × (sum (add_buckets xs ys) % 2 ^ 32 ≡ u32 (sum xs + sum ys))
unfolding add_buckets
add_buckets-sum [] [] h = (refl, refl)
add_buckets-sum [] (y ∷ ys) h = absurd (omega arith)
add_buckets-sum (x ∷ xs) [] h = absurd (omega arith)
add_buckets-sum (x ∷ xs) (y ∷ ys) h = omega (arith, add_buckets-sum xs ys (omega arith))

-- There is a bucket for each number of digits, and the buckets add up to the number of samples, to
-- 32 bits.
pub record IsValid (h : Histogram) : Type 0 where
  pub full : length h.buckets ≡ max_digits_in_type
  pub counted : sum h.buckets % 2 ^ 32 ≡ h.num_samples

pub new_histogram-IsValid : IsValid new_histogram
unfolding new_histogram
new_histogram-IsValid = record { full = refl; counted = refl }

-- A positive int64_t sample of d digits goes to bucket d - 1, whose index is in range, so that the
-- assertion never fails; and the histogram stays valid.
pub add_sample-IsValid :
    (h : Histogram) (n : ℕ)
    → IsValid h
    → 0 < n
    → n < 2 ^ 63
    → Returns (add_sample h (pos n)) λ k.
      IsValid k
      × (b : ℕ) × (power_of_ten b ≤ n)
      × (n < power_of_ten (suc b))
      × (k.buckets ≡ increment h.buckets b)
unfolding add_sample
add_sample-IsValid h zero v p q = absurd (omega arith)
add_sample-IsValid h (suc n) v p q =
    let f = bucket-bounds (suc n) p q in
    let g = increment-sum h.buckets (bucket (suc n)) (omega (arith, v.full)) in
    rw (lt→ltb (bucket (suc n)) max_digits_in_type (omega arith)) (
      record { full = g.0 ∙ v.full; counted = omega (arith, v.counted) },
      bucket (suc n),
      f.0,
      f.1,
      refl,
    )

-- Merging valid histograms gives a valid one that counts the samples of both, to 32 bits.
pub merge_histogram-IsValid :
    (h k : Histogram)
    → IsValid h
    → IsValid k
    → IsValid (merge_histogram h k)
      × ((merge_histogram h k).num_samples ≡ u32 (h.num_samples + k.num_samples))
unfolding merge_histogram
merge_histogram-IsValid h k v w = (
  record {
    full = omega (arith, (add_buckets-sum h.buckets k.buckets (v.full ∙ sym w.full)), v.full);
    counted =
        omega
          (arith, add_buckets-sum h.buckets k.buckets (v.full ∙ sym w.full), v.counted, w.counted);
  },
  refl,
)
