-- ===== src/Metrics/Gauge.antt =====
-- Integers, as far as the gauges need them.
use p2p_service.Prelude.{ℕ, zero, suc, ◌≡◌, refl}

-- `negsuc n` is -(n + 1).
pub data ℤ : Type 0 where
  pos : ℕ → ℤ
  negsuc : ℕ → ℤ

-- `Gauge::inc` and `Gauge::dec`
unfoldable pub inc : ℤ → ℤ
inc (pos n) = pos (suc n)
inc (negsuc zero) = pos 0
inc (negsuc (suc n)) = negsuc n

unfoldable pub dec : ℤ → ℤ
dec (pos zero) = negsuc 0
dec (pos (suc n)) = pos n
dec (negsuc n) = negsuc (suc n)

pub dec-inc : (z : ℤ) → dec (inc z) ≡ z
unfolding inc dec
dec-inc (pos n) = refl
dec-inc (negsuc zero) = refl
dec-inc (negsuc (suc n)) = refl
