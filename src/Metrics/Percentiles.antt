-- ===== src/Metrics/Percentiles.antt =====
-- The three percentiles as order statistics of the samples.
use Prim.Native.Nat.{min}
use proto_test.Base.{
  ℕ, ◌+◌, ◌-◌, ◌≤◌, ◌<◌, ◌≡◌, List, length, get_or, ℤ, pos, negsuc, pos_part, subst, ◌≤ℤ◌, leb_ℤ,
  Floats, arith, sort, length-sort, sort-IsSorted, get_or-mono, count_if, count_if-sort, rank_below,
  rank_above,
}
use proto_test.Metrics.{clamp_index, index, percentiles}

clamp_index-lt : (n : ℕ) (i : ℤ) → 0 < n → clamp_index n i < n
unfolding clamp_index
clamp_index-lt n (negsuc i) h = h
clamp_index-lt n (pos i) h = ground arith

clamp_index_mono : (n : ℕ) (i j : ℤ) → i ≤ℤ j → clamp_index n i ≤ clamp_index n j
unfolding clamp_index
clamp_index_mono n (negsuc i) j h = omega arith
clamp_index_mono n (pos i) (negsuc j) h = absurd (omega arith)
clamp_index_mono n (pos i) (pos j) h = ground arith

clamp_index-min : (n : ℕ) (z : ℤ) → 0 < n → clamp_index n z ≡ min (pos_part z) (n - 1)
unfolding clamp_index
clamp_index-min n (negsuc i) h = omega arith
clamp_index-min n (pos i) h = ground arith

-- The value that the samples have at a rank: it is between `rank` other samples and the rest.
pub record IsRank (vals : List ℤ) (rank : ℕ) (v : ℤ) : Type 0 where
  pub below : rank < count_if (λ y. leb_ℤ y v) vals
  pub above : length vals ≤ rank + count_if (λ y. leb_ℤ v y) vals

sort-IsRank :
    (vals : List ℤ) (i : ℕ) → i < length vals → IsRank vals i (get_or (sort vals) i (pos 0))
sort-IsRank vals i h = record {
  below =
      rw (← count_if-sort (λ y. leb_ℤ y (get_or (sort vals) i (pos 0))) vals)
        (rank_below (sort vals) i (sort-IsSorted vals) (omega (arith, length-sort vals)));
  above =
      rw (← count_if-sort (λ y. leb_ℤ (get_or (sort vals) i (pos 0)) y) vals, ← length-sort vals)
        (rank_above (sort vals) i (sort-IsSorted vals) (omega (arith, length-sort vals)));
}

module _ (fl : Floats) where
  open fl use {Float, of_ℕ, mul, trunc, half, ninety_five, ninety_nine, Le}

  index-lt : (n : ℕ) (p : Float) → 0 < n → index fl n p < n
  unfolding index
  index-lt n p h = clamp_index-lt n _ h

  index_mono : (n : ℕ) (p q : Float) → Le p q → index fl n p ≤ index fl n q
  unfolding index
  index_mono n p q h = clamp_index_mono n _ _ (fl.trunc-Le _ _ (fl.mul-Le (n - 1) p q h))

  abbrev value_at : List ℤ → Float → ℤ
  value_at vals p = get_or (sort vals) (index fl (length vals) p) (pos 0)

  pub percentiles_lem :
      (vals : List ℤ)
      → 0 < length vals
      → percentiles fl vals
        ≡ (value_at vals half, value_at vals ninety_five, value_at vals ninety_nine)
  unfolding percentiles
  percentiles_lem vals h = rw length-sort (ground arith)

  value_at-IsRank :
      (vals : List ℤ) (p : Float)
      → 0 < length vals
      → IsRank vals (index fl (length vals) p) (value_at vals p)
  value_at-IsRank vals p h = sort-IsRank vals _ (index-lt _ p h)

  value_at_mono :
      (vals : List ℤ) (p q : Float) → 0 < length vals → Le p q → value_at vals p ≤ℤ value_at vals q
  value_at_mono vals p q h le =
      get_or-mono (sort vals) _ _ (sort-IsSorted vals) (index_mono _ p q le)
        (omega (arith, length-sort vals, index-lt (length vals) q h))

  index-min :
      (n : ℕ) (p : Float)
      → 0 < n
      → index fl n p ≡ min (pos_part (trunc (mul (of_ℕ (n - 1)) p))) (n - 1)
  unfolding index
  index-min n p h = clamp_index-min n _ h

  -- The sample whose rank is the truncated product of the last index with the fraction p: 0 if that
  -- is negative, and at most the last index.
  abbrev pub IsPercentile : List ℤ → Float → ℤ → Type 0
  IsPercentile vals p v =
      let last = length vals - 1 in IsRank vals (min (pos_part (trunc (mul (of_ℕ last) p))) last) v

  value_at-IsPercentile :
      (vals : List ℤ) (p : Float) → 0 < length vals → IsPercentile vals p (value_at vals p)
  value_at-IsPercentile vals p h =
      subst (λ i. IsRank vals i (value_at vals p)) (index-min (length vals) p h)
        (value_at-IsRank vals p h)

  -- On at least one sample, each percentile is the sample whose rank is the truncated product of
  -- the last index with the fraction, 0 if that is negative and at most the last index, and they are
  -- ordered.
  pub percentiles-IsRank :
      (vals : List ℤ)
      → 0 < length vals
      → let (p50, p95, p99) = percentiles fl vals in
        IsPercentile vals half p50
        × IsPercentile vals ninety_five p95
        × IsPercentile vals ninety_nine p99
        × (p50 ≤ℤ p95)
        × (p95 ≤ℤ p99)
  percentiles-IsRank vals h = rw (percentiles_lem vals h) (
    value_at-IsPercentile vals half h,
    value_at-IsPercentile vals ninety_five h,
    value_at-IsPercentile vals ninety_nine h,
    value_at_mono vals half ninety_five h fl.half-le,
    value_at_mono vals ninety_five ninety_nine h fl.ninety_five-le,
  )
