-- ===== src/Budget/Acquire.antt =====
-- src/budget.rs: `try_acquire` returns, and with what.
use ruvoy.Prelude.{
  ℕ, ◌+◌, ◌-◌, ◌≤◌, ◌<◌, ◌≡◌, refl, Bool, true, false, not, List, [], ◌∷◌, any, arith, leb,
  if◌then◌else◌, usize_mod, add_usize,
}
use ruvoy.Budget.Defs.{Ceiling, holds, refused, take, try_acquire}

take_returned :
    (passes : List Bool) (amount : ℕ) (c : Ceiling)
    → (take passes (holds amount) c ≡ (c, holds amount)) × (take passes refused c ≡ (c, refused))
unfolding take
take_returned [] amount c = (refl, refl)
take_returned (spurious ∷ passes) amount c = (refl, refl)

-- With no other thread at work the loop returns at the first pass whose exchange does not fail
-- spuriously: with the lease exactly when the amount fits beside what is lent out, and otherwise
-- with nothing taken.
pub try_acquire_lem :
    (passes : List Bool) (amount : ℕ) (c : Ceiling)
    → c.used ≤ c.capacity
    → c.capacity < usize_mod
    → any not passes ≡ true
    → try_acquire passes amount c ≡ (
        if leb amount (c.capacity - c.used)
        then (record c { used = c.used + amount }, holds amount)
        else (c, refused))
unfolding try_acquire
try_acquire_lem [] amount c h w settles = ground arith
try_acquire_lem (true ∷ passes) amount c h w settles =
    ground (arith, try_acquire_lem passes amount c h w settles, take_returned passes amount c)
try_acquire_lem (false ∷ passes) amount c h w settles = ground (
  arith,
  take_returned passes amount c,
  take_returned passes amount (record c { used = add_usize c.used amount }),
)
