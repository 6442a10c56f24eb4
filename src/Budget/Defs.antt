-- ===== src/Budget/Defs.antt =====
-- src/budget.rs: `Budget`, `Lease` and `Budget::take` as the atomic actions that it makes on the
-- counter. A thread is where it stands between two of them; any thread may act between them.
use ruvoy.Prelude.{
  ℕ, zero, suc, ◌+◌, ◌-◌, ◌%◌, Bool, not, ◌&&◌, List, [], ◌∷◌, ltb, ◌==◌, if◌then◌else◌, usize_mod,
  add_usize,
}

pub record Ceiling : Type 0 where
  pub used : ℕ
  pub capacity : ℕ

unfoldable pub new : ℕ → Ceiling
new capacity = record { used = 0; capacity = capacity }

-- Where a thread stands: `loaded` in the loop of `take`, with the amount it wants and the value of
-- `used` that it has seen; `holds` with a `Lease`.
pub data Taker : Type 0 where
  idle refused : Taker
  loaded : ℕ → ℕ → Taker
  holds : ℕ → Taker

-- The load before the loop.
unfoldable pub load : ℕ → Ceiling → Taker
load amount c = loaded amount c.used

-- One pass of the loop. `compare_exchange_weak` may fail although the value is the expected one.
unfoldable pub attempt : Bool → ℕ → ℕ → Ceiling → Ceiling × Taker
attempt spurious amount used c =
    if ltb (c.capacity - used) amount
    then (c, refused)
    else if c.used == used && not spurious
    then (record c { used = add_usize used amount }, holds amount)
    else (c, loaded amount c.used)

-- `Lease::drop`, a `fetch_sub`, which wraps.
unfoldable pub release : ℕ → Ceiling → Ceiling
release held c = record c { used = (c.used + usize_mod - held) % usize_mod }

pub data Action : Type 0 where
  loads : ℕ → Action
  tries : Bool → Action
  drops : Action

-- One atomic action of a thread; one that does not fit where it stands does nothing.
unfoldable pub act : Action → Taker → Ceiling → Ceiling × Taker
unfolding load attempt release
act (loads amount) idle c = (c, load amount c)
act (loads amount) refused c = (c, load amount c)
act (tries spurious) (loaded amount used) c = attempt spurious amount used c
act drops (holds held) c = (release held c, idle)
act _ taker c = (c, taker)

-- Thread `i` acts.
unfoldable pub step : ℕ → Action → Ceiling → List Taker → Ceiling × List Taker
step i a c [] = (c, [])
step zero a c (t ∷ ts) = let (c', t') = act a t c in (c', t' ∷ ts)
step (suc i) a c (t ∷ ts) = let (c', ts') = step i a c ts in (c', t ∷ ts')

unfoldable pub run : List (ℕ × Action) → Ceiling → List Taker → Ceiling × List Taker
run [] c ts = (c, ts)
run ((i, a) ∷ rest) c ts = let (c', ts') = step i a c ts in run rest c' ts'

-- `try_acquire` while no other thread acts: the passes of the loop, each with whether its exchange
-- fails spuriously, until it returns.
unfoldable pub take : List Bool → Taker → Ceiling → Ceiling × Taker
unfolding attempt
take [] t c = (c, t)
take (spurious ∷ rest) (loaded amount used) c =
    let (c', t) = attempt spurious amount used c in take rest t c'
take (spurious ∷ rest) t c = (c, t)

unfoldable pub try_acquire : List Bool → ℕ → Ceiling → Ceiling × Taker
unfolding take load
try_acquire passes amount c = take passes (load amount c) c
