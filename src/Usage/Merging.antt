-- ===== src/Usage/Merging.antt =====
-- provider.go: `Usage.Merge`, which folds what a stream reports bit by bit.
use Prim.Native.Nat.{max}
use golm.Common.{
  ◌≡◌, ◌<◌, ◌≤◌, ◌+◌, ◌⊎◌, inl, inr, arith, refl, Bool-cases, int_half, add_int, lt_int, false, ℕ,
  ◌*◌,
}
use golm.Usage.{Usage, merge, merge_fields, drop_split, pick}

-- No count is negative, and the two parts of the cache writes add up without overflow.
pub record IsCounted (u : Usage) : Type 0 where
  pub input : u.input_tokens < int_half
  pub output : u.output_tokens < int_half
  pub thinking : u.thinking_tokens < int_half
  pub cache_read : u.cache_read_tokens < int_half
  pub cache_write : u.cache_write_tokens < int_half
  pub cache_write5m : 2 * u.cache_write5m_tokens < int_half
  pub cache_write1h : 2 * u.cache_write1h_tokens < int_half

pick-max : (a b : ℕ) → a < int_half → b < int_half → pick a b ≡ max a b
unfolding pick
pick-max a b p q = ground arith

fits_le : (w a b : ℕ) → w < int_half → a + b < int_half → lt_int w (add_int a b) ≡ false → a + b ≤ w
fits_le w a b p q h = ground arith

-- Every count is the greater one, and a split that exceeds the whole is none.
pub record Merged (u o w : Usage) : Type 0 where
  pub input : w.input_tokens ≡ max u.input_tokens o.input_tokens
  pub output : w.output_tokens ≡ max u.output_tokens o.output_tokens
  pub thinking : w.thinking_tokens ≡ max u.thinking_tokens o.thinking_tokens
  pub cache_read : w.cache_read_tokens ≡ max u.cache_read_tokens o.cache_read_tokens
  pub cache_write : w.cache_write_tokens ≡ max u.cache_write_tokens o.cache_write_tokens
  pub lost : w.lost_completions ≡ u.lost_completions
  pub split_fits : w.cache_write5m_tokens + w.cache_write1h_tokens ≤ w.cache_write_tokens
  pub split :
      ((w.cache_write5m_tokens ≡ max u.cache_write5m_tokens o.cache_write5m_tokens)
        × (w.cache_write1h_tokens ≡ max u.cache_write1h_tokens o.cache_write1h_tokens))
      ⊎ ((w.cache_write5m_tokens ≡ 0) × (w.cache_write1h_tokens ≡ 0))

-- Merging counts that are not negative, with each part of the split of the cache writes below
-- 2^62, so that the parts add up without overflow, takes the greater of each, keeps the lost
-- completions of the receiver, and leaves a split of the cache writes that fits into their whole: the greater
-- parts, or none.
pub merge-Merged : (u o : Usage) → IsCounted u → IsCounted o → Merged u o (merge u o)
unfolding merge merge_fields drop_split
merge-Merged u o p q =
    let a = pick-max u.input_tokens o.input_tokens p.input q.input in
    let b = pick-max u.output_tokens o.output_tokens p.output q.output in
    let c = pick-max u.thinking_tokens o.thinking_tokens p.thinking q.thinking in
    let d = pick-max u.cache_read_tokens o.cache_read_tokens p.cache_read q.cache_read in
    let e = pick-max u.cache_write_tokens o.cache_write_tokens p.cache_write q.cache_write in
    let f =
      pick-max u.cache_write5m_tokens o.cache_write5m_tokens (omega (arith, p.cache_write5m))
        (omega (arith, q.cache_write5m)) in
    let g =
      pick-max u.cache_write1h_tokens o.cache_write1h_tokens (omega (arith, p.cache_write1h))
        (omega (arith, q.cache_write1h)) in
    elim (Bool-cases (
      lt_int (merge_fields u o).cache_write_tokens (
        add_int (merge_fields u o).cache_write5m_tokens (merge_fields u o).cache_write1h_tokens))) [
          | inl over ↦ rw over (record {
            input = a;
            output = b;
            thinking = c;
            cache_read = d;
            cache_write = e;
            lost = refl;
            split_fits = omega arith;
            split = inr (refl, refl);
          })
          | inr fits ↦ rw fits (record {
            input = a;
            output = b;
            thinking = c;
            cache_read = d;
            cache_write = e;
            lost = refl;
            split_fits =
                fits_le (pick u.cache_write_tokens o.cache_write_tokens)
                  (pick u.cache_write5m_tokens o.cache_write5m_tokens)
                  (pick u.cache_write1h_tokens o.cache_write1h_tokens)
                  (omega (arith, e, p.cache_write, q.cache_write))
                  (omega (
                    arith, f, g, p.cache_write5m, q.cache_write5m, p.cache_write1h, q.cache_write1h,
                  ))
                  fits;
            split = inl (f, g);
          })
        ]
