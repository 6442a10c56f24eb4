-- ===== src/Budget/Interleavings.antt =====
-- src/budget.rs: every interleaving of acquires and drops.
use ruvoy.Prelude.{ℕ, zero, suc, ◌+◌, ◌≤◌, ◌<◌, ◌≡◌, refl, ◌∙◌, List, [], ◌∷◌, arith, usize_mod}
use ruvoy.Budget.Defs.{
  Ceiling, Taker, idle, loaded, holds, Action, loads, tries, drops, new, act, step, run,
}

-- What the leases of all threads hold.
unfoldable pub held : List Taker → ℕ
held [] = 0
held (holds amount ∷ ts) = amount + held ts
held (t ∷ ts) = held ts

-- The threads before the one that acts hold `others`.
record IsSettled (others : ℕ) (c : Ceiling) (ts : List Taker) : Type 0 where
  settled : c.used ≡ others + held ts
  fits : c.used ≤ c.capacity
  within_word : c.capacity < usize_mod

act-IsSettled :
    (others : ℕ) (a : Action) (t : Taker) (c : Ceiling) (ts : List Taker)
    → IsSettled others c (t ∷ ts)
    → IsSettled others (act a t c).0 ((act a t c).1 ∷ ts) × ((act a t c).0.capacity ≡ c.capacity)
unfolding act held
act-IsSettled others (loads amount) idle c ts v = ground arith
act-IsSettled others (tries spurious) (loaded amount used) c ts v = ground arith
act-IsSettled others drops (holds amount) c ts v = ground arith
act-IsSettled others _ _ c ts v = ground arith

step-IsSettled :
    (i : ℕ) (a : Action) (others : ℕ) (c : Ceiling) (ts : List Taker)
    → IsSettled others c ts
    → IsSettled others (step i a c ts).0 (step i a c ts).1
      × ((step i a c ts).0.capacity ≡ c.capacity)
unfolding step held
step-IsSettled i a others c [] v = (v, refl)
step-IsSettled zero a others c (t ∷ ts) v = act-IsSettled others a t c ts v
step-IsSettled (suc i) a others c (holds amount ∷ ts) v =
    ground (arith, step-IsSettled i a (others + amount) c ts (ground arith))
step-IsSettled (suc i) a others c (t ∷ ts) v =
    ground (arith, step-IsSettled i a others c ts (ground arith))

run-IsSettled :
    (sched : List (ℕ × Action)) (c : Ceiling) (ts : List Taker)
    → IsSettled 0 c ts
    → IsSettled 0 (run sched c ts).0 (run sched c ts).1 × ((run sched c ts).0.capacity ≡ c.capacity)
unfolding run
run-IsSettled [] c ts v = (v, refl)
run-IsSettled ((i, a) ∷ rest) c ts v =
    let (v', same) = step-IsSettled i a 0 c ts v in
    let (v'', same') = run-IsSettled rest (step i a c ts).0 (step i a c ts).1 v' in
    (v'', same' ∙ same)

-- Whatever the interleaving of loads, exchanges that fail for a reason or for none, and drops, by
-- any number of threads: the counter is what the leases hold together, so that never exceeds the
-- capacity, and once no lease is left the counter is back at zero.
pub run_never_overcommits :
    (n : ℕ) (sched : List (ℕ × Action)) (ts : List Taker)
    → n < usize_mod
    → held ts ≡ 0
    → ((run sched (new n) ts).0.used ≡ held (run sched (new n) ts).1)
      × (held (run sched (new n) ts).1 ≤ n)
unfolding new
run_never_overcommits n sched ts h none_held = ground (arith, run-IsSettled sched (new n) ts)
