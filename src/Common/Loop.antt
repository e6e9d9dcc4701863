-- ===== src/Common/Loop.antt =====
-- Counted loops whose body may be undefined.
use Prim.Native.Nat.{ℕ, zero, suc, ◌+◌}
use mathlib.Core.Option.{Option, some}
use package.programming_workshop.Common.Tests.{◌>>=◌}

module _ {ℓ} {S : Type ℓ} where
  -- for (k = first; k < first + n; k++) s = body k s
  unfoldable pub for_range : ℕ → ℕ → (ℕ → S → Option S) → S → Option S
  for_range zero first body s = some s
  for_range (suc n) first body s = do s' ← body first s; for_range n (first + 1) body s'
