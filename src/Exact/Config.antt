-- ===== src/Exact/Config.antt =====
-- reuse/exact_prefix/config.py: the knobs of the manager and the break-even calibration. Times
-- are whole numbers of one unit; the source has them as floats.
pub mod BreakEven
use cache_seek.Prelude.{ℕ, zero, suc, ◌+◌, ◌*◌, min, ltb, if◌then◌else◌}
use cache_seek.Exact.Types.{Tier}

pub data Quant : Type 0 where
  none int8 int4 : Quant

pub record ModelGeometry : Type 0 where
  pub n_layers : ℕ
  pub n_kv_heads : ℕ
  pub head_dim : ℕ
  pub chunk_tokens : ℕ

unfoldable pub kv_elems_per_chunk : ModelGeometry → ℕ
kv_elems_per_chunk geo = geo.n_layers * 2 * geo.chunk_tokens * geo.n_kv_heads * geo.head_dim

pub record WorldKvConfig : Type 0 where
  pub window_chunks : ℕ
  pub sink_chunks : ℕ
  pub break_even_k : ℕ
  pub quant : Quant
  pub group_size : ℕ
  pub commit_tier : Tier

module _ (fetch_per_chunk recompute_per_chunk window_chunks fixed_overhead : ℕ) where
  -- The loop at `k`, with `rounds` values of `k` left; `max_k + 1` when it ends.
  unfoldable pub calibrate_loop : ℕ → ℕ → ℕ
  calibrate_loop zero k = k
  calibrate_loop (suc rounds) k =
      let rest = calibrate_loop rounds (suc k) in
      if ltb (fixed_overhead + min k window_chunks * fetch_per_chunk) (k * recompute_per_chunk)
      then k
      else rest

  unfoldable pub calibrate_break_even_k : ℕ → ℕ
  unfolding calibrate_loop
  calibrate_break_even_k max_k = calibrate_loop max_k 1
