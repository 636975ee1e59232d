-- ===== src/Paging/Ceiling.antt =====
-- A rounded-up quotient is enough.
use Prim.Native.Nat.{div_helper}
use restaurant_management_ba.Base.{ℕ, zero, suc, ◌+◌, ◌*◌, ◌≤◌, ◌<◌, ◌≡◌, some, min, max, arith}
use restaurant_management_ba.Paging.Offsets.{ceil_div, or_number}

div_helper_lem : (k m n j : ℕ) → n + m + k * suc m < suc (div_helper k m n j) * suc m + j
div_helper_lem k m zero j = omega arith
div_helper_lem k m (suc n) zero = grind (arith, div_helper_lem (suc k) m n m)
div_helper_lem k m (suc n) (suc j) = grind (arith, div_helper_lem k m n j)

ceil_div_le : (n m : ℕ) → n ≤ ceil_div n (suc m) * suc m
ceil_div_le n m = grind (arith, div_helper_lem 0 m (n + m) m)

or_number_le : (q : ℕ) → q ≤ or_number (some q) 1
unfolding or_number
or_number_le zero = omega arith
or_number_le (suc q) = omega arith

mul_le : (n q t s : ℕ) → q ≤ t → n ≤ q * s → n ≤ t * s
mul_le n q t s h k = grind arith

limited_le : (n m l k : ℕ) → l ≡ suc m → k ≡ suc m → n ≤ or_number (some (ceil_div n l)) 1 * k
limited_le n m l k hl hk =
    rw (hl, hk)
      (mul_le n (ceil_div n (suc m)) (or_number (some (ceil_div n (suc m))) 1) (suc m)
        (or_number_le (ceil_div n (suc m))) (ceil_div_le n m))

-- The pages that are promised hold all the rows, when the limit is at most 100.
pub total_pages_le :
    (n m : ℕ) → m ≤ 100 → n ≤ or_number (some (ceil_div n (max 1 m))) 1 * min 100 (max 1 m)
total_pages_le n zero h = limited_le n 0 (max 1 0) (min 100 (max 1 0)) (omega arith) (omega arith)
total_pages_le n (suc m) h =
    limited_le n m (max 1 (suc m)) (min 100 (max 1 (suc m))) (omega arith) (omega (arith, h))
