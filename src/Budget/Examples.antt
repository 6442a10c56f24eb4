-- ===== src/Budget/Examples.antt =====
-- Runs of the budget: src/budget.rs and its tests.
use ruvoy.Prelude.{ℕ, ◌≤◌, ◌≡◌, refl, true, false, List, [], ◌∷◌, arith}
use ruvoy.Budget.Defs.{idle, refused, holds, Action, loads, tries, new, run, act, step, try_acquire}
use ruvoy.Budget.Interleavings.{held, run_never_overcommits}
use ruvoy.Budget.Acquire.{try_acquire_lem}

-- Two threads want all of a budget of two; both load before either exchanges.
abbrev race : List (ℕ × Action)
race = (0, loads 2) ∷ (1, loads 2) ∷ (1, tries false) ∷ (0, tries false) ∷ (0, tries false) ∷ []

race_test : (run race (new 2) (idle ∷ idle ∷ [])).1 ≡ refused ∷ holds 2 ∷ []
unfolding run step act new
race_test = refl

run_never_overcommits_example :
    ((run race (new 2) (idle ∷ idle ∷ [])).0.used ≡ held (run race (new 2) (idle ∷ idle ∷ [])).1)
    × (held (run race (new 2) (idle ∷ idle ∷ [])).1 ≤ 2)
unfolding held
run_never_overcommits_example = run_never_overcommits 2 race (idle ∷ idle ∷ []) (omega arith) refl

try_acquire_example :
    try_acquire (true ∷ false ∷ []) 8 (record { used = 1; capacity = 10 })
    ≡ (record { used = 9; capacity = 10 }, holds 8)
try_acquire_example =
    try_acquire_lem (true ∷ false ∷ []) 8 (record { used = 1; capacity = 10 }) (omega arith)
      (omega arith) refl
