-- ===== src/Gamification/Levels.antt =====
-- useGamificationStore.ts: levels and their thresholds.
use remitlend.Base.{ℕ, zero, suc, ◌-◌, ◌≤◌, ◌<◌, ◌≡◌, refl, some, leb, if◌then◌else◌, arith, All}
use remitlend.Base.Int.{ℤ, pos, leb_ℤ, ◌≤ℤ◌}
use remitlend.Gamification.{LevelUpReward, level_thresholds, threshold_of, calculate_level}

calculate_level_ifs :
    (xp : ℤ)
    → calculate_level xp ≡ (
        if leb_ℤ (pos 2500) xp
        then 7
        else if leb_ℤ (pos 1500) xp
        then 6
        else if leb_ℤ (pos 1000) xp
        then 5
        else if leb_ℤ (pos 600) xp
        then 4
        else if leb_ℤ (pos 300) xp
        then 3
        else if leb_ℤ (pos 100) xp
        then 2
        else 1)
unfolding calculate_level
calculate_level_ifs xp = ground arith

-- A level above the first is reached exactly with the experience that its threshold asks for.
pub calculate_level_reaches :
    (n : ℕ)
    → All
        (λ t. leb t.level (calculate_level (pos n)) ≡ leb_ℤ (pos t.xp_required) (pos n))
        level_thresholds
calculate_level_reaches n = rw (calculate_level_ifs (pos n)) (ground arith)

-- More experience is never a lower level.
pub calculate_level_mono : (xp more : ℤ) → xp ≤ℤ more → calculate_level xp ≤ calculate_level more
calculate_level_mono xp more h =
    rw (calculate_level_ifs xp, calculate_level_ifs more) (ground arith)

found : (n : ℕ) → n < 7 → (t : LevelUpReward) × (threshold_of (suc n) ≡ some t) × (t.level ≡ suc n)
found zero h = (_, refl, refl)
found (suc zero) h = (_, refl, refl)
found (suc (suc zero)) h = (_, refl, refl)
found (suc (suc (suc zero))) h = (_, refl, refl)
found (suc (suc (suc (suc zero)))) h = (_, refl, refl)
found (suc (suc (suc (suc (suc zero))))) h = (_, refl, refl)
found (suc (suc (suc (suc (suc (suc zero)))))) h = (_, refl, refl)
found (suc (suc (suc (suc (suc (suc (suc n))))))) h = absurd (omega (arith, h))

calculate_level_pred : (xp : ℤ) → (n : ℕ) × (n < 7) × (calculate_level xp ≡ suc n)
calculate_level_pred xp =
    let l : (1 ≤ calculate_level xp) × (calculate_level xp ≤ 7) =
      rw (calculate_level_ifs xp) (ground arith) in
    (calculate_level xp - 1, omega (arith, l), omega (arith, l))

pub threshold_found :
    (xp : ℤ)
    → (t : LevelUpReward) × (threshold_of (calculate_level xp) ≡ some t)
      × (t.level ≡ calculate_level xp)
threshold_found xp = let (n, l, e) = calculate_level_pred xp in rw e (found n l)
