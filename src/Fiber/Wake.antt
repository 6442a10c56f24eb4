-- ===== src/Fiber/Wake.antt =====
-- src/wake.rs: the socket that breaks the runtime's wait. What the system answers to the writes and
-- reads is an argument, in order; a list that runs out stands for a call that does not return.
use ruvoy.Prelude.{ℕ, Bool, List, [], ◌∷◌, ◌==◌, if◌then◌else◌, Bytes, text}
use ruvoy.Error.{BridgeError, io, response_timeout, runtime_stopped}

-- What a write or a read gives back.
pub data Answer : Type 0 where
  bytes : ℕ → Answer
  interrupted would_block : Answer
  broken : Bytes → Answer

pub data Signalled : Type 0 where
  ok : Signalled
  err : BridgeError → Signalled
  -- The call has not returned.
  pending : Signalled

unfoldable pub poisoned : BridgeError
poisoned = io (text "wake writer mutex was poisoned")

unfoldable pub zero_bytes : BridgeError
zero_bytes = io (text "wake socket accepted zero bytes")

unfoldable pub closed : BridgeError
closed = io (text "wake socket closed before shutdown")

-- The loop of `signal`. A full socket has an unread byte, so it counts as signalled.
unfoldable pub write_loop : List Answer → Signalled
write_loop [] = pending
write_loop (bytes n ∷ answers) = if n == 1 then ok else err zero_bytes
write_loop (interrupted ∷ answers) = write_loop answers
write_loop (would_block ∷ answers) = ok
write_loop (broken message ∷ answers) = err (io message)

unfoldable pub signal : Bool → List Answer → Signalled
signal mutex_poisoned answers = if mutex_poisoned then err poisoned else write_loop answers

-- The loop of `drain`.
unfoldable pub drain : List Answer → Signalled
drain [] = pending
drain (bytes n ∷ answers) = let rest = drain answers in if n == 0 then err closed else rest
drain (interrupted ∷ answers) = drain answers
drain (would_block ∷ answers) = ok
drain (broken message ∷ answers) = err (io message)

pub data RecvTimeoutError : Type 0 where
  timeout disconnected : RecvTimeoutError

unfoldable pub map_recv_timeout : RecvTimeoutError → BridgeError
map_recv_timeout timeout = response_timeout
map_recv_timeout disconnected = runtime_stopped
