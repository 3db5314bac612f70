-- ===== src/Metrics/Buckets.antt =====
-- What the histograms of src/common/metrics.rs report.
use minikv.Prelude.{
  ℕ, suc, ◌+◌, ◌^◌, ◌<◌, ◌≡◌, refl, ap, ◌∙◌, arith, true, Bool-cases, inl, inr, Option, none, some,
  List, [], ◌∷◌, length, replicate, All, if◌then◌else◌,
}
use minikv.Metrics.{
  fetch_add, Float, Histogram, with_buckets, bucket_idx, add_at, observe, cumulate, get_buckets,
}

module _ (float : Float) where
  -- How many values are at most a boundary, and the others.
  abbrev pub count_le : float.F64 → List float.F64 → ℕ
  count_le b [] = 0
  count_le b (v ∷ vs) = (if float.le v b then 1 else 0) + count_le b vs

  abbrev above : float.F64 → List float.F64 → List float.F64
  above b [] = []
  above b (v ∷ vs) = let rest = above b vs in if float.le v b then rest else v ∷ rest

  -- What the buckets hold.
  abbrev held : List float.F64 → List float.F64 → List ℕ
  held [] vs = length vs ∷ []
  held (b ∷ bs) vs = count_le b vs ∷ held bs (above b vs)

  -- Values that were observed one after the other, the last one first.
  abbrev pub observe_all : List float.F64 → Histogram float → Histogram float
  observe_all [] h = h
  observe_all (v ∷ vs) h = observe float v (observe_all vs h)

  -- Each boundary with the number of values that it bounds, and all values at the end.
  abbrev pub report : ℕ → List float.F64 → List float.F64 → List (Option float.F64 × ℕ)
  report before [] vs = (none, before + length vs) ∷ []
  report before (b ∷ bs) vs = (some b, before + count_le b vs) ∷ report before bs vs

  -- Each boundary is at most all that follow it.
  abbrev pub IsRising : List float.F64 → Type 0
  IsRising [] = Unit {0}
  IsRising (b ∷ bs) = All (λ c. float.le b c ≡ true) bs × IsRising bs

  count_split :
      (b : float.F64) (vs : List float.F64) → count_le b vs + length (above b vs) ≡ length vs
  count_split b [] = refl
  count_split b (v ∷ vs) = ground (arith, count_split b vs)

  count_le-above :
      (b c : float.F64) (vs : List float.F64)
      → float.le b c ≡ true
      → count_le b vs + count_le c (above b vs) ≡ count_le c vs
  count_le-above b c [] h = refl
  count_le-above b c (v ∷ vs) h = elim (Bool-cases (float.le v b)) [
    | inl low ↦ ground (arith, low, float.le_trans v b c low h, count_le-above b c vs h)
    | inr high ↦ ground (arith, high, count_le-above b c vs h)
  ]

  add_at-held :
      (bs vs : List float.F64) (v : float.F64)
      → length vs + 1 < 2 ^ 64
      → add_at (bucket_idx float bs v) (held bs vs) ≡ held bs (v ∷ vs)
  unfolding bucket_idx add_at
  add_at-held [] vs v h = ap (λ n. n ∷ []) (omega arith)
  add_at-held (b ∷ bs) vs v h = elim (Bool-cases (float.le v b)) [
    | inl low ↦ rw low (ap (λ n. n ∷ held bs (above b vs)) (omega (arith, count_split b vs)))
    | inr high ↦ rw high (
        ap (λ ns. count_le b vs ∷ ns)
          (add_at-held bs (above b vs) v (omega (arith, count_split b vs)))
        ∙ ap (λ n. n ∷ held bs (v ∷ above b vs)) (omega arith))
  ]

  report-above :
      (b : float.F64) (bs vs : List float.F64) (before : ℕ)
      → All (λ c. float.le b c ≡ true) bs
      → report (before + count_le b vs) bs (above b vs) ≡ report before bs vs
  report-above b [] vs before h = ap (λ n. (none, n) ∷ []) (omega (arith, count_split b vs))
  report-above b (c ∷ bs) vs before (le, h) =
      ap (λ n. (some c, n) ∷ report (before + count_le b vs) bs (above b vs))
        (omega (arith, count_le-above b c vs le))
      ∙ ap (λ r. (some c, before + count_le c vs) ∷ r) (report-above b bs vs before h)

  cumulate-held :
      (bs vs : List float.F64) (before : ℕ)
      → IsRising bs
      → before + length vs < 2 ^ 64
      → cumulate float before bs (held bs vs) ≡ report before bs vs
  unfolding cumulate
  cumulate-held [] vs before rising fits = ap (λ n. (none, n) ∷ []) (omega arith)
  cumulate-held (b ∷ bs) vs before (le, rising) fits =
      let same : fetch_add before (count_le b vs) ≡ before + count_le b vs =
        omega (arith, count_split b vs) in
      rw same (
        ap (λ r. (some b, before + count_le b vs) ∷ r)
          (cumulate-held bs (above b vs) (before + count_le b vs) rising
              (omega (arith, count_split b vs))
            ∙ report-above b bs vs before le))

  no_values : (bs : List float.F64) → replicate (length bs + 1) 0 ≡ held bs []
  no_values [] = refl
  no_values (b ∷ bs) =
      let next : suc (length bs) + 1 ≡ suc (length bs + 1) = omega arith in
      ap (λ n. replicate n 0) next ∙ ap (λ l. 0 ∷ l) (no_values bs)

  observe_all-held :
      (bs vs : List float.F64)
      → length vs < 2 ^ 64
      → ((observe_all vs (with_buckets float bs)).buckets ≡ held bs vs)
        × ((observe_all vs (with_buckets float bs)).boundaries ≡ bs)
        × ((observe_all vs (with_buckets float bs)).count ≡ length vs)
  unfolding with_buckets observe
  observe_all-held bs [] h = (no_values bs, refl, refl)
  observe_all-held bs (v ∷ vs) h =
      let (buckets, same, count) = observe_all-held bs vs (omega arith) in
      (rw (buckets, same) (add_at-held bs vs v (omega arith)), same, omega (arith, count))

  -- After fewer than 2^64 values a histogram reports, for each of its boundaries, if these rise, how many
  -- values were at most that boundary, and at the end how many values there were, which is also its
  -- count.
  pub get_buckets-observe_all :
      (bs vs : List float.F64)
      → IsRising bs
      → length vs < 2 ^ 64
      → (get_buckets float (observe_all vs (with_buckets float bs)) ≡ report 0 bs vs)
        × ((observe_all vs (with_buckets float bs)).count ≡ length vs)
  unfolding get_buckets
  get_buckets-observe_all bs vs rising few =
      let (buckets, same, count) = observe_all-held bs vs few in
      (rw (buckets, same) (cumulate-held bs vs 0 rising (omega arith)), count)
