-- ===== src/Base/Index.antt =====
-- The wrap-around step of an 8-bit queue index: `i + 1`, then back to 0 at the queue's size.
-- xuart.c, uart.c and xdma.c all move their indices so.
use Prim.Native.Nat.{ℕ, ◌+◌, ◌%◌, ◌^◌, ◌<◌}
use mathlib.Core.Path.{◌≡◌}
use native.Mathlib.Omega.{arith}
use rpv_platforms_evt_driven.Base.Tests.{◌==◌, if◌then◌else◌}

-- `uint8_t n = i + 1; if (n == size) n = 0;`
unfoldable pub next_index : ℕ → ℕ → ℕ
next_index size i = let n = (i + 1) % 2 ^ 8 in if n == size then 0 else n

module _ (size i : ℕ) (small : size < 2 ^ 8) (inside : i < size) where
  pub next_index-lt : next_index size i < size
  unfolding next_index
  next_index-lt = ground arith

  -- No wrap of the 8-bit type.
  pub next_index_lem : next_index size i ≡ (if i + 1 == size then 0 else i + 1)
  unfolding next_index
  next_index_lem = ground arith

  -- It reaches every index from another one.
  pub next_index_injective : (j : ℕ) → j < size → next_index size i ≡ next_index size j → i ≡ j
  unfolding next_index
  next_index_injective j hj e = ground arith
