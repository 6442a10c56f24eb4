-- ===== src/Fiber/Reactor.antt =====
-- src/fiber.rs, src/wake.rs and `Wakeups` of src/stream.rs: producers on any thread and the passes of
-- the reactor, interleaved. A command or a stream that is owed a wakeup is put on its list first and
-- signalled after; a pass takes the owed streams, empties the socket, and receives.
pub mod Stranded
use ruvoy.Prelude.{
  ℕ, zero, suc, ◌+◌, ◌-◌, Bool, true, false, Option, none, some, List, [], ◌∷◌, ◌++◌, min, ltb,
  ◌==◌, if◌then◌else◌,
}

-- Where the reactor stands: waiting for the socket, about to take what is owed, reading the socket
-- empty, receiving commands, or gone after a shutdown.
pub data Phase : Type 0 where
  waiting resolving draining receiving stopped : Phase

-- A command, as far as a pass tells them apart.
pub data Command (A : Type 0) : Type 0 where
  work : A → Command A
  shutdown : Command A

pub record Reactor (A : Type 0) : Type 0 where
  pub queue : List (Command A)
  -- `Wakeups`: the streams whose parked fiber is owed a wakeup, by number.
  pub owed : List ℕ
  -- Bytes in the socket, which holds at most `room` of them.
  pub pending : ℕ
  pub room : ℕ
  -- Producers that have put something on a list and have not signalled yet.
  pub unsignalled : ℕ
  pub phase : Phase
  -- What the passes have handed to Ruby.
  pub handed : List (Command A)
  pub resolved : List ℕ

pub data Action (A : Type 0) : Type 0 where
  sends : Command A → Action A
  owes : ℕ → Action A
  signals : Action A
  begins resolves reads receives : Action A

module _ {A : Type 0} where
  unfoldable pub new : ℕ → Reactor A
  new room = record {
    queue = [];
    owed = [];
    pending = 0;
    room = room;
    unsignalled = 0;
    phase = waiting;
    handed = [];
    resolved = [];
  }

  -- `signal`: a byte more, unless the socket is full.
  signal_step : Reactor A → Reactor A
  signal_step r =
      if r.unsignalled == 0
      then r
      else record r { unsignalled = r.unsignalled - 1; pending = min (r.pending + 1) r.room }

  -- One read of `wake::drain`: up to 256 bytes, or none, which ends it.
  read_step : Phase → Reactor A → Reactor A
  read_step draining r =
      if r.pending == 0
      then record r { phase = receiving }
      else record r { pending = r.pending - 256 }
  read_step _ r = r

  -- One `try_recv` of the loop of `drain`.
  receive_step : Phase → List (Command A) → Reactor A → Reactor A
  receive_step receiving [] r = record r { phase = waiting }
  receive_step receiving (work a ∷ queue) r = record r {
    queue = queue;
    handed = r.handed ++ work a ∷ [];
  }
  receive_step receiving (shutdown ∷ queue) r = record r {
    queue = queue;
    handed = r.handed ++ shutdown ∷ [];
    phase = stopped;
  }
  receive_step _ queue r = r

  begin_step : Phase → Reactor A → Reactor A
  begin_step waiting r = record r { phase = resolving }
  begin_step _ r = r

  -- `resolve_wakeups`: the list is taken at once.
  resolve_step : Phase → Reactor A → Reactor A
  resolve_step resolving r = record r {
    phase = draining;
    owed = [];
    resolved = r.resolved ++ r.owed;
  }
  resolve_step _ r = r

  -- An action that does not fit where the reactor stands does nothing.
  unfoldable pub step : Action A → Reactor A → Reactor A
  unfolding signal_step read_step receive_step begin_step resolve_step
  step (sends c) r = record r { queue = r.queue ++ c ∷ []; unsignalled = r.unsignalled + 1 }
  step (owes stream) r = record r { owed = r.owed ++ stream ∷ []; unsignalled = r.unsignalled + 1 }
  step signals r = signal_step r
  step begins r = begin_step r.phase r
  step resolves r = resolve_step r.phase r
  step reads r = read_step r.phase r
  step receives r = receive_step r.phase r.queue r

  unfoldable pub run : List (Action A) → Reactor A → Reactor A
  run [] r = r
  run (a ∷ as') r = run as' (step a r)
