-- ===== src/Gamification.antt =====
-- frontend/src/app/stores/useGamificationStore.ts: levels, experience and achievements. Experience is a
-- whole number that may be negative, progress one that is not, the volume is counted in hundredths, and the clock is an argument. The
-- texts that are only shown (rewards, descriptions, icons) and the store's persistence are left out.
pub mod Levels
pub mod Store
mod Tests
use Prim.Native.String.{String}
use remitlend.Base.{
  ℕ, suc, ◌+◌, ◌-◌, ◌*◌, min, Bool, true, false, not, ◌&&◌, Option, none, some, List, [], ◌∷◌, map,
  find, ltb, leb, ◌==◌, if◌then◌else◌,
}
use remitlend.Base.Assoc.{◌same◌}
use remitlend.Base.Int.{ℤ, pos, ◌+ℤ◌, ◌-ℤ◌, leb_ℤ}

pub data KingdomLevel : Type 0 where
  peasant merchant knight baron duke prince king : KingdomLevel

pub record Achievement : Type 0 where
  pub id : String
  pub unlocked_at : Option ℕ
  pub progress : Option ℕ
  pub max_progress : Option ℕ

pub record LevelUpReward : Type 0 where
  pub level : ℕ
  pub title : KingdomLevel
  pub xp_required : ℕ

pub record XpGain : Type 0 where
  pub amount : ℤ
  pub reason : String
  pub id : ℕ

pub record GamificationState : Type 0 where
  pub level : ℕ
  pub xp : ℤ
  pub kingdom_title : KingdomLevel
  pub achievements : List Achievement
  pub sound_enabled : Bool
  pub animations_enabled : Bool
  pub sound_volume : ℕ
  pub show_level_up_modal : Bool
  pub pending_level_up : Option LevelUpReward
  pub recent_xp_gain : Option XpGain

abbrev reward : ℕ → KingdomLevel → ℕ → LevelUpReward
reward level title xp_required = record { level = level; title = title; xp_required = xp_required }

abbrev pub level_thresholds : List LevelUpReward
level_thresholds =
    reward 1 peasant 0
    ∷ reward 2 merchant 100
    ∷ reward 3 knight 300
    ∷ reward 4 baron 600
    ∷ reward 5 duke 1000
    ∷ reward 6 prince 1500
    ∷ reward 7 king 2500
    ∷ []

abbrev pub title_or_peasant : Option LevelUpReward → KingdomLevel
title_or_peasant none = peasant
title_or_peasant (some t) = t.title

abbrev pub threshold_of : ℕ → Option LevelUpReward
threshold_of level = find (λ t. t.level == level) level_thresholds

unfoldable pub get_kingdom_title : ℕ → KingdomLevel
get_kingdom_title level = title_or_peasant (threshold_of level)

-- The level of the last threshold that is reached, which the source's loop finds from the end.
abbrev pub last_reached : ℤ → ℕ → List LevelUpReward → ℕ
last_reached xp fallback [] = fallback
last_reached xp fallback (t ∷ ts) =
    last_reached xp (if leb_ℤ (pos t.xp_required) xp then t.level else fallback) ts

unfoldable pub calculate_level : ℤ → ℕ
calculate_level xp = last_reached xp 1 level_thresholds

abbrev new_achievement : String → ℕ → Achievement
new_achievement id max_progress = record {
  id = id;
  unlocked_at = none;
  progress = some 0;
  max_progress = some max_progress;
}

abbrev pub initial_achievements : List Achievement
initial_achievements =
    new_achievement "first_loan" 1
    ∷ new_achievement "first_repayment" 1
    ∷ new_achievement "perfect_score" 800
    ∷ new_achievement "five_loans" 5
    ∷ new_achievement "early_bird" 1
    ∷ new_achievement "streak_master" 10
    ∷ []

abbrev pub initial_state : GamificationState
initial_state = record {
  level = 1;
  xp = pos 0;
  kingdom_title = peasant;
  achievements = initial_achievements;
  sound_enabled = true;
  animations_enabled = true;
  sound_volume = 50;
  show_level_up_modal = false;
  pending_level_up = none;
  recent_xp_gain = none;
}

unfoldable pub check_level_up : GamificationState → GamificationState
check_level_up s =
    let new_level = calculate_level s.xp in
    if ltb s.level new_level
    then (elim (threshold_of new_level) [
      | none ↦ s
      | some t ↦ record s {
        level = new_level;
        kingdom_title = t.title;
        show_level_up_modal = true;
        pending_level_up = some t;
      }
    ])
    else s

unfoldable pub add_xp : ℤ → String → ℕ → GamificationState → GamificationState
unfolding ◌+ℤ◌
add_xp amount reason now s = check_level_up (record s {
  xp = s.xp +ℤ amount;
  recent_xp_gain = some (record { amount = amount; reason = reason; id = now });
})

-- `a || b` for a number that may be missing.
abbrev pub or_number : Option ℕ → ℕ → ℕ
or_number none b = b
or_number (some n) b = if n == 0 then b else n

abbrev pub is_missing : Option ℕ → Bool
is_missing none = true
is_missing (some _) = false

abbrev pub with_progress : ℕ → ℕ → Achievement → Achievement
with_progress progress now a =
    let new_progress = min progress (or_number a.max_progress progress) in
    let is_unlocked = leb (or_number a.max_progress 1) new_progress in
    record a {
      progress = some new_progress;
      unlocked_at = if is_unlocked && is_missing a.unlocked_at then some now else a.unlocked_at;
    }

unfoldable pub unlock_achievement : String → ℕ → GamificationState → GamificationState
unlock_achievement id now s = record s {
  achievements =
      map
        (λ a.
          if a.id same id
          then record a { unlocked_at = some now; progress = a.max_progress }
          else a)
        s.achievements;
}

unfoldable pub update_achievement_progress : String → ℕ → ℕ → GamificationState → GamificationState
update_achievement_progress id progress now s = record s {
  achievements = map (λ a. if a.id same id then with_progress progress now a else a) s.achievements;
}

-- An action of the store. `setSoundVolume` takes a volume that is not negative.
pub data Action : Type 0 where
  adds_xp : ℤ → String → ℕ → Action
  clears_recent_xp_gain checks_level_up dismisses_level_up : Action
  sets_level : ℕ → Action
  unlocks_achievement : String → ℕ → Action
  updates_progress : String → ℕ → ℕ → Action
  toggles_sound toggles_animations resets : Action
  sets_sound_volume : ℕ → Action

unfoldable pub act : Action → GamificationState → GamificationState
act (adds_xp amount reason now) s = add_xp amount reason now s
act clears_recent_xp_gain s = record s { recent_xp_gain = none }
act checks_level_up s = check_level_up s
act dismisses_level_up s = record s { show_level_up_modal = false; pending_level_up = none }
act (sets_level level) s = record s { level = level; kingdom_title = get_kingdom_title level }
act (unlocks_achievement id now) s = unlock_achievement id now s
act (updates_progress id progress now) s = update_achievement_progress id progress now s
act toggles_sound s = record s { sound_enabled = not s.sound_enabled }
act toggles_animations s = record s { animations_enabled = not s.animations_enabled }
act resets s = initial_state
act (sets_sound_volume volume) s = record s { sound_volume = min 100 volume }

pub record NextLevelInfo : Type 0 where
  pub current_level : ℕ
  pub next_level : ℕ
  pub xp_to_next : ℤ

abbrev pub required_or_zero : Option LevelUpReward → ℕ
required_or_zero none = 0
required_or_zero (some t) = t.xp_required

-- `getNextLevelInfo`, less the percentage for the progress bar.
unfoldable pub get_next_level_info : ℤ → NextLevelInfo
unfolding ◌-ℤ◌
get_next_level_info xp =
    let current = calculate_level xp in
    elim (threshold_of (current + 1)) [
      | none ↦ record { current_level = current; next_level = current; xp_to_next = pos 0 }
      | some t ↦ record {
        current_level = current;
        next_level = t.level;
        xp_to_next = pos t.xp_required -ℤ xp;
      }
    ]
