-- ===== src/Runqlat/Buckets.antt =====
-- The latency ranges of bpf/runqlat_tracing.c against the ranges that `struct stat_t` documents.
use jidick.Base.{ℕ, ◌*◌, ◌<◌, ◌^◌, ◌≡◌, ◌&&◌, arith, ltb, leb, to_nat, add64, nsec_per_msec}
use jidick.Runqlat.{StatT, GStatT, add_latency, g_add_latency}

-- 1 in the range [lo, hi) of milliseconds, and 0 outside.
abbrev pub within : ℕ → ℕ → ℕ → ℕ
within lo hi delta = to_nat (leb (lo * nsec_per_msec) delta && ltb delta (hi * nsec_per_msec))

abbrev pub from : ℕ → ℕ → ℕ
from lo delta = to_nat (leb (lo * nsec_per_msec) delta)

pub record IsWords (e : StatT) : Type 0 where
  pub nlat_01_lt : e.nlat_01 < 2 ^ 64
  pub nlat_02_lt : e.nlat_02 < 2 ^ 64
  pub nlat_03_lt : e.nlat_03 < 2 ^ 64
  pub nlat_04_lt : e.nlat_04 < 2 ^ 64

-- Each counter of a group grows by one exactly when the latency lies in the range documented for
-- it, [0, 10), [10, 20), [20, 50) and [50, inf) milliseconds; the counts of switches stay.
add_latency_lem :
    (delta : ℕ) (e : StatT)
    → IsWords e
    → add_latency delta e ≡ record e {
      nlat_01 = add64 e.nlat_01 (within 0 10 delta);
      nlat_02 = add64 e.nlat_02 (within 10 20 delta);
      nlat_03 = add64 e.nlat_03 (within 20 50 delta);
      nlat_04 = add64 e.nlat_04 (from 50 delta);
    }
unfolding add_latency
add_latency_lem delta e w = ground arith

-- The counters of a group as those of the host.
abbrev pub as_host : StatT → GStatT
as_host e = record {
  g_nvcsw = e.nvcsw;
  g_nivcsw = e.nivcsw;
  g_nlat_01 = e.nlat_01;
  g_nlat_02 = e.nlat_02;
  g_nlat_03 = e.nlat_03;
  g_nlat_04 = e.nlat_04;
}

-- The host and a group choose the same counter.
pub g_add_latency-as_host :
    (delta : ℕ) (e : StatT) → g_add_latency delta (as_host e) ≡ as_host (add_latency delta e)
unfolding g_add_latency add_latency
g_add_latency-as_host delta e = ground arith
