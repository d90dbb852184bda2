-- ===== src/Now.antt =====
-- src/common/now.c: the readings of the two clocks. What clock_gettime(2) stores is an argument.
use nemo_core.Prelude.{ℕ}
use nemo_core.Convert.{Timespec, tnanos}

-- A reading of each clock.
pub record Clocks : Type 0 where
  pub mono : ℕ
  pub real : ℕ

unfoldable pub real_now : Timespec → ℕ
real_now ts = tnanos ts

unfoldable pub mono_now : Timespec → ℕ
mono_now ts = tnanos ts
