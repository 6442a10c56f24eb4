-- ===== src/Worker/Metadata/Ports.antt =====
-- crates/ruvoy-envoy-fiber/src/worker.rs: `authority_host` and `authority_port`, taken together.
use ruvoy.Prelude.{
  ℕ, suc, ◌+◌, ◌*◌, ◌-◌, ◌≡◌, refl, ap, ◌∙◌, false, none, some, [], ◌∷◌, ◌++◌, any, ◌==◌, length,
  take, drop, arith, Bytes,
}
use ruvoy.Std.Parse.{parse_u16, parse_digits}
use ruvoy.Worker.Metadata.{
  find, rsplit_once, has_colon, authority_host, authority_port, bracketed, port_at, port_behind,
  host_before, port_after, some_if_any,
}

digits-no_colon :
    (acc : ℕ) (bs : Bytes) (n : ℕ) → parse_digits 65535 acc bs ≡ some n → has_colon bs ≡ false
unfolding parse_digits has_colon
digits-no_colon acc [] n h = refl
digits-no_colon acc (c ∷ cs) n h = ground (arith, digits-no_colon (acc * 10 + (c - b'0')) cs n)

port-no_colon : (port : Bytes) (n : ℕ) → parse_u16 port ≡ some n → has_colon port ≡ false
unfolding parse_u16 has_colon
port-no_colon [] n h = refl
port-no_colon (c ∷ cs) n h = ground (arith, digits-no_colon 0 cs n, digits-no_colon 0 (c ∷ cs) n)

rsplit-none : (bs : Bytes) → has_colon bs ≡ false → rsplit_once b':' bs ≡ none
unfolding rsplit_once has_colon
rsplit-none [] h = refl
rsplit-none (c ∷ cs) h = ground (arith, rsplit-none cs)

rsplit-last :
    (host port : Bytes)
    → has_colon port ≡ false
    → rsplit_once b':' (host ++ b':' ∷ port) ≡ some (host, port)
unfolding rsplit_once
rsplit-last [] port h = ground (arith, rsplit-none port h)
rsplit-last (c ∷ cs) port h = ground (arith, rsplit-last cs port h)

find-first :
    (inner rest : Bytes)
    → any (λ c. c == b']') inner ≡ false
    → find b']' (inner ++ b']' ∷ rest) ≡ some (length inner)
unfolding find
find-first [] rest h = ground arith
find-first (c ∷ cs) rest h = ground (arith, find-first cs rest)

take-past :
    (inner rest : Bytes) → take (suc (length inner)) (inner ++ b']' ∷ rest) ≡ inner ++ b']' ∷ []
take-past [] rest = refl
take-past (c ∷ cs) rest = ap (◌∷◌ c) (take-past cs rest)

drop-past : (inner rest : Bytes) → drop (suc (length inner)) (inner ++ b']' ∷ rest) ≡ rest
drop-past [] rest = refl
drop-past (c ∷ cs) rest = drop-past cs rest

-- An authority `host:port` is split where it was put together: for a host with no colon and no
-- opening bracket, and a port that parses, the host and the port come back; without a port, the
-- host alone does.
pub host_and_port :
    (c : ℕ) (cs port : Bytes) (n : ℕ)
    → (c == b'[') ≡ false
    → has_colon (c ∷ cs) ≡ false
    → parse_u16 port ≡ some n
    → (authority_host ((c ∷ cs) ++ b':' ∷ port) ≡ some (c ∷ cs))
      × (authority_port ((c ∷ cs) ++ b':' ∷ port) ≡ some n)
      × (authority_host (c ∷ cs) ≡ some (c ∷ cs))
      × (authority_port (c ∷ cs) ≡ none)
unfolding authority_host authority_port host_before port_after some_if_any has_colon
host_and_port c cs port n plain colons parsed =
    let split = rsplit-last (c ∷ cs) port (port-no_colon port n parsed) in
    let whole = rsplit-none (c ∷ cs) colons in
    (ground arith, ground arith, ground arith, ground arith)

host_in_brackets :
    (inner rest : Bytes)
    → any (λ c. c == b']') inner ≡ false
    → authority_host (b'[' ∷ (inner ++ b']' ∷ rest)) ≡ some (b'[' ∷ (inner ++ b']' ∷ []))
unfolding authority_host bracketed
host_in_brackets inner rest closed =
    let k : length inner + 2 ≡ suc (suc (length inner)) = omega arith in
    ap (bracketed (b'[' ∷ (inner ++ b']' ∷ rest))) (find-first inner rest closed)
    ∙ ap (λ n. some (take n (b'[' ∷ (inner ++ b']' ∷ rest)))) k
    ∙ ap (λ xs. some (b'[' ∷ xs)) (take-past inner rest)

port_behind_brackets :
    (inner rest : Bytes)
    → any (λ c. c == b']') inner ≡ false
    → authority_port (b'[' ∷ (inner ++ b']' ∷ rest))
      ≡ (elim (port_behind rest) [ none ↦ none | some port ↦ parse_u16 port ])
unfolding authority_port port_at
port_behind_brackets inner rest closed =
    let k : length inner + 1 ≡ suc (length inner) = omega arith in
    ap (port_at (inner ++ b']' ∷ rest)) (find-first inner rest closed)
    ∙ ap (λ xs. elim (port_behind xs) [ none ↦ none | some port ↦ parse_u16 port ])
        (ap (λ n. drop n (inner ++ b']' ∷ rest)) k ∙ drop-past inner rest)

-- A bracketed address, as of IPv6, keeps its brackets and its colons, with a port and without.
pub bracketed_host_and_port :
    (inner port : Bytes) (n : ℕ)
    → any (λ c. c == b']') inner ≡ false
    → parse_u16 port ≡ some n
    → (authority_host (b'[' ∷ (inner ++ b']' ∷ (b':' ∷ port))) ≡ some (b'[' ∷ (inner ++ b']' ∷ [])))
      × (authority_port (b'[' ∷ (inner ++ b']' ∷ (b':' ∷ port))) ≡ some n)
      × (authority_host (b'[' ∷ (inner ++ b']' ∷ [])) ≡ some (b'[' ∷ (inner ++ b']' ∷ [])))
      × (authority_port (b'[' ∷ (inner ++ b']' ∷ [])) ≡ none)
unfolding port_behind
bracketed_host_and_port inner port n closed parsed = (
  host_in_brackets inner (b':' ∷ port) closed,
  port_behind_brackets inner (b':' ∷ port) closed ∙ parsed,
  host_in_brackets inner [] closed,
  port_behind_brackets inner [] closed,
)
