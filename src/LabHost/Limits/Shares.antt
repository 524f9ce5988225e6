-- ===== src/LabHost/Limits/Shares.antt =====
-- The shares of a total: they sum to it and differ by one at most.
use Prim.Native.Nat.{min}
use docker_interface.Prelude.{
  ℕ, zero, suc, ◌+◌, ◌-◌, ◌*◌, ◌/◌, ◌%◌, ◌<◌, ◌≤◌, ◌≡◌, refl, ap, arith, All, sum, length,
}
use docker_interface.LabHost.Limits.{shares_from, spread}

length-shares_from :
    (base remainder idx count : ℕ) → length (shares_from base remainder idx count) ≡ count
unfolding shares_from
length-shares_from base remainder idx zero = refl
length-shares_from base remainder idx (suc count) =
    ap suc (length-shares_from base remainder (idx + 1) count)

-- What the indices from `idx` on take of the remainder.
sum-shares_from :
    (base remainder idx count : ℕ)
    → sum (shares_from base remainder idx count)
      ≡ count * base + (min (idx + count) remainder - min idx remainder)
unfolding shares_from
sum-shares_from base remainder idx zero = omega arith
sum-shares_from base remainder idx (suc count) =
    grind (arith, sum-shares_from base remainder (idx + 1) count)

shares_from_bounds :
    (base remainder idx count : ℕ)
    → All (λ s. (base ≤ s) × (s ≤ base + 1)) (shares_from base remainder idx count)
unfolding shares_from
shares_from_bounds base remainder idx zero = tt
shares_from_bounds base remainder idx (suc count) =
    ((ground arith, ground arith), shares_from_bounds base remainder (idx + 1) count)

pub length-spread : (total count : ℕ) → length (spread total count) ≡ count
unfolding spread
length-spread total count = length-shares_from (total / count) (total % count) 0 count

pub sum-spread : (total count : ℕ) → 0 < count → sum (spread total count) ≡ total
unfolding spread
sum-spread total count h = grind (arith, sum-shares_from (total / count) (total % count) 0 count)

pub spread_bounds :
    (total count : ℕ)
    → All (λ s. (total / count ≤ s) × (s ≤ total / count + 1)) (spread total count)
unfolding spread
spread_bounds total count = shares_from_bounds (total / count) (total % count) 0 count
