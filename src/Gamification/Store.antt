-- ===== src/Gamification/Store.antt =====
-- useGamificationStore.ts: what any sequence of the store's actions leaves.
use remitlend.Base.{
  ◌≡◌, sym, ap, ◌∙◌, true, false, if◌then◌else◌, inl, inr, refl, Bool-cases, some, List, [], ◌∷◌,
  ltb, arith, All,
}
use mathlib.Core.Path.{subst}
use remitlend.Base.Int.{ℤ, pos, ◌+ℤ◌, ltb_ℤ, ◌≤ℤ◌}
use remitlend.Gamification.{
  GamificationState, Action, adds_xp, clears_recent_xp_gain, checks_level_up, dismisses_level_up,
  sets_level, unlocks_achievement, updates_progress, toggles_sound, toggles_animations, resets,
  sets_sound_volume, get_kingdom_title, calculate_level, check_level_up, add_xp, unlock_achievement,
  update_achievement_progress, act, initial_state,
}
use remitlend.Gamification.Levels.{calculate_level_mono, threshold_found}

unfoldable pub act_all : List Action → GamificationState → GamificationState
act_all [] s = s
act_all (a ∷ rest) s = act_all rest (act a s)

-- The level is not given from outside.
abbrev pub EarnsLevel : Action → Type 0
EarnsLevel (sets_level _) = ⊥
EarnsLevel _ = Unit

abbrev pub max_ℤ : ℤ → ℤ → ℤ
max_ℤ a b = if ltb_ℤ a b then b else a

-- The experience and its peak, each since the store was last reset: what the actions add up to.
abbrev pub gained : Action → ℤ × ℤ → ℤ × ℤ
gained (adds_xp amount _ _) (xp, peak) = (xp +ℤ amount, max_ℤ peak (xp +ℤ amount))
gained resets _ = (pos 0, pos 0)
gained _ x = x

unfoldable pub gained_all : List Action → ℤ × ℤ → ℤ × ℤ
gained_all [] x = x
gained_all (a ∷ rest) x = gained_all rest (gained a x)

pub record IsEarned (x : ℤ × ℤ) (s : GamificationState) : Type 0 where
  pub experience : s.xp ≡ x.0
  pub peak_level : s.level ≡ calculate_level x.1
  pub level_title : s.kingdom_title ≡ get_kingdom_title s.level

initial-IsEarned : IsEarned (pos 0, pos 0) initial_state
unfolding calculate_level get_kingdom_title
initial-IsEarned = record { experience = refl; peak_level = refl; level_title = refl }

peak_not_passed : (a b : ℤ) → ltb_ℤ a b ≡ false → b ≤ℤ a
peak_not_passed a b h = ground arith

peak_passed : (a b : ℤ) → ltb_ℤ a b ≡ true → a ≤ℤ b
peak_passed a b h = ground arith

-- The level of the higher of two experiences is the higher of their levels.
calculate_level-max :
    (a b : ℤ)
    → calculate_level (max_ℤ a b) ≡ (
        if ltb (calculate_level a) (calculate_level b)
        then calculate_level b
        else calculate_level a)
calculate_level-max a b = elim (Bool-cases (ltb_ℤ a b)) [
  | inl e ↦ rw e (ground (arith, calculate_level_mono a b (peak_passed a b e)))
  | inr e ↦ rw e (ground (arith, calculate_level_mono b a (peak_not_passed a b e)))
]

check-level :
    (s : GamificationState)
    → s.kingdom_title ≡ get_kingdom_title s.level
    → ((check_level_up s).xp ≡ s.xp)
      × ((check_level_up s).level
          ≡ (if ltb s.level (calculate_level s.xp) then calculate_level s.xp else s.level))
      × ((check_level_up s).kingdom_title ≡ get_kingdom_title (check_level_up s).level)
unfolding check_level_up get_kingdom_title
check-level s k = elim (Bool-cases (ltb s.level (calculate_level s.xp))) [
  | inr b ↦ rw b (refl, refl, k)
  | inl b ↦
      let (t, e, l) = threshold_found s.xp in
      rw (b, check_level_up, e) (refl, refl, rw (e, get_kingdom_title) refl)
]

checked-IsEarned :
    (x : ℤ × ℤ) (s : GamificationState)
    → s.xp ≡ x.0
    → s.level ≡ calculate_level x.1
    → s.kingdom_title ≡ get_kingdom_title s.level
    → IsEarned (x.0, max_ℤ x.1 x.0) (check_level_up s)
checked-IsEarned x s e l k =
    let (kept, level, title) = check-level s k in
    record {
      experience = kept ∙ e;
      peak_level =
          level
          ∙ ap (λ n. if ltb n (calculate_level s.xp) then calculate_level s.xp else n) l
          ∙ ap
              (λ y.
                if ltb (calculate_level x.1) (calculate_level y)
                then calculate_level y
                else calculate_level x.1)
              e
          ∙ sym (calculate_level-max x.1 x.0);
      level_title = title;
    }

kept-IsEarned :
    (x : ℤ × ℤ) (s s' : GamificationState)
    → IsEarned x s
    → s'.xp ≡ s.xp
    → s'.level ≡ s.level
    → s'.kingdom_title ≡ s.kingdom_title
    → IsEarned x s'
kept-IsEarned x s s' h a b c = record {
  experience = a ∙ h.experience;
  peak_level = b ∙ h.peak_level;
  level_title = c ∙ h.level_title ∙ ap get_kingdom_title (sym b);
}

max-lower : (a b : ℤ) → b ≤ℤ a → max_ℤ a b ≡ a
max-lower a b h = ground arith

max-upper : (a b : ℤ) → b ≤ℤ max_ℤ a b
max-upper a b = ground arith

act-IsEarned :
    (a : Action) (x : ℤ × ℤ) (s : GamificationState)
    → EarnsLevel a
    → x.0 ≤ℤ x.1
    → IsEarned x s
    → IsEarned (gained a x) (act a s)
unfolding act add_xp unlock_achievement update_achievement_progress
act-IsEarned (adds_xp amount reason now) x s e o h =
    checked-IsEarned (x.0 +ℤ amount, x.1)
      (record s {
        xp = s.xp +ℤ amount;
        recent_xp_gain = some (record { amount = amount; reason = reason; id = now });
      })
      (ap (λ y. y +ℤ amount) h.experience) h.peak_level h.level_title
act-IsEarned clears_recent_xp_gain x s e o h = kept-IsEarned x s _ h refl refl refl
act-IsEarned checks_level_up x s e o h =
    subst (λ y. IsEarned (x.0, y) (check_level_up s)) (max-lower x.1 x.0 o)
      (checked-IsEarned x s h.experience h.peak_level h.level_title)
act-IsEarned dismisses_level_up x s e o h = kept-IsEarned x s _ h refl refl refl
act-IsEarned (sets_level level) x s e o h = absurd e
act-IsEarned (unlocks_achievement id now) x s e o h = kept-IsEarned x s _ h refl refl refl
act-IsEarned (updates_progress id progress now) x s e o h = kept-IsEarned x s _ h refl refl refl
act-IsEarned toggles_sound x s e o h = kept-IsEarned x s _ h refl refl refl
act-IsEarned toggles_animations x s e o h = kept-IsEarned x s _ h refl refl refl
act-IsEarned resets x s e o h = initial-IsEarned
act-IsEarned (sets_sound_volume volume) x s e o h = kept-IsEarned x s _ h refl refl refl

gained-below : (a : Action) (x : ℤ × ℤ) → x.0 ≤ℤ x.1 → (gained a x).0 ≤ℤ (gained a x).1
gained-below (adds_xp amount reason now) x h = max-upper x.1 (x.0 +ℤ amount)
gained-below clears_recent_xp_gain x h = h
gained-below checks_level_up x h = h
gained-below dismisses_level_up x h = h
gained-below (sets_level level) x h = h
gained-below (unlocks_achievement id now) x h = h
gained-below (updates_progress id progress now) x h = h
gained-below toggles_sound x h = h
gained-below toggles_animations x h = h
gained-below resets x h = omega arith
gained-below (sets_sound_volume volume) x h = h

act_all-IsEarned :
    (actions : List Action) (x : ℤ × ℤ) (s : GamificationState)
    → All EarnsLevel actions
    → x.0 ≤ℤ x.1
    → IsEarned x s
    → IsEarned (gained_all actions x) (act_all actions s)
unfolding act_all gained_all
act_all-IsEarned [] x s e o h = h
act_all-IsEarned (a ∷ rest) x s e o h =
    act_all-IsEarned rest (gained a x) (act a s) e.1 (gained-below a x o)
      (act-IsEarned a x s e.0 o h)

-- After any sequence of the store's actions other than `setLevel`, from its first state, with amounts of
-- experience that may be negative, the experience is the sum of those since the last reset, the level is
-- the one that the peak of this sum earns, and the title is the level's.
pub earned_level :
    (actions : List Action)
    → All EarnsLevel actions
    → let s = act_all actions initial_state in
      let (xp, peak) = gained_all actions (pos 0, pos 0) in
      (s.xp ≡ xp) × (s.level ≡ calculate_level peak) × (s.kingdom_title ≡ get_kingdom_title s.level)
earned_level actions e =
    let h =
      act_all-IsEarned actions (pos 0, pos 0) initial_state e (omega arith) initial-IsEarned in
    (h.experience, h.peak_level, h.level_title)
