-- ===== src/Gamification/Tests.antt =====
-- useGamificationStore.ts: some experience, earned in two steps.
use remitlend.Base.Int.{pos, negsuc, ◌+ℤ◌}
use remitlend.Base.{◌≢◌, ◌≡◌, List, [], ◌∷◌}
use remitlend.Gamification.{
  Action, adds_xp, dismisses_level_up, updates_progress, calculate_level, get_kingdom_title,
  initial_state,
}
use remitlend.Gamification.Store.{act_all, gained_all, earned_level}

-- Some of the experience is taken back, and the level stays.
abbrev some_actions : List Action
some_actions =
    adds_xp (pos 150) "loan" 1
    ∷ dismisses_level_up
    ∷ updates_progress "five_loans" 2 3
    ∷ adds_xp (negsuc 99) "penalty" 4
    ∷ []

earned_level_example :
    let s = act_all some_actions initial_state in
    (s.xp ≡ pos 50)
    × (s.level ≡ calculate_level (pos 150))
    × (s.kingdom_title ≡ get_kingdom_title s.level)
unfolding gained_all ◌+ℤ◌
earned_level_example = earned_level some_actions (tt, (tt, (tt, (tt, tt))))

level_not_earned : calculate_level (pos 150) ≢ calculate_level (pos 50)
unfolding calculate_level
level_not_earned = λ e. cc
