-- ===== src/Fiber/Collect/Whole.antt =====
-- src/fiber.rs: what the collectors make of a whole response.
use ruvoy.Prelude.{
  ℕ, suc, ◌≡◌, refl, true, false, Option, none, some, List, [], ◌∷◌, ◌++◌, append_assoc, append-nil,
  sym, ap, ◌∙◌, arith, any, map, length, Bytes,
}
use ruvoy.Response.{ResponseHead}
use ruvoy.Stream.Defs.{StreamItem, head, chunk, end, failed, ResponseStream, take_next, is_terminal}
use ruvoy.Fiber.Collect.{Collected, err, Calling, calling, call_item, Turn, turns, call, ended_with}
use ruvoy.Fiber.Collect.Same.{call_turn-open}

-- The bytes of a response, and the head that counts, which is the last one.
unfoldable pub body_of : List StreamItem → Bytes
body_of [] = []
body_of (chunk bytes ∷ items) = bytes ++ body_of items
body_of (_ ∷ items) = body_of items

unfoldable pub last_head : List StreamItem → Option ResponseHead → Option ResponseHead
last_head [] found = found
last_head (head h ∷ items) found = last_head items (some h)
last_head (_ ∷ items) found = last_head items found

unfoldable pub verdict : StreamItem → Option ResponseHead → Bytes → Collected
verdict (failed error) h body = err error
verdict _ h body = ended_with h body

-- One turn that takes an item which is not the last.
take_next-cons :
    (s : ResponseStream) (x : StreamItem) (rest : List StreamItem)
    → s.items ≡ x ∷ rest
    → s.paused ≡ false
    → ((take_next s).1 ≡ some x) × ((take_next s).0.items ≡ rest) × ((take_next s).0.paused ≡ false)
unfolding take_next
take_next-cons s x rest items unpaused = ground arith

-- What an item that ends nothing adds.
item-open :
    (remaining : ℕ) (x : StreamItem) (xs : List StreamItem) (c : Calling)
    → is_terminal x ≡ false
    → let c' = call_item remaining (some x) c in
      (c'.returned ≡ c.returned)
      × (last_head xs c'.head ≡ last_head (x ∷ xs) c.head)
      × (c'.body ++ body_of xs ≡ c.body ++ body_of (x ∷ xs))
unfolding call_item last_head body_of is_terminal
item-open remaining (head h) xs c more = (refl, refl, refl)
item-open remaining (chunk bytes) xs c more = (refl, refl, append_assoc c.body bytes (body_of xs))
item-open remaining end xs c more = absurd (ground arith)
item-open remaining (failed error) xs c more = absurd (ground arith)

item-last :
    (remaining : ℕ) (t : StreamItem) (c : Calling)
    → is_terminal t ≡ true
    → (call_item remaining (some t) c).returned ≡ some (verdict t c.head c.body)
unfolding call_item verdict is_terminal
item-last remaining end c closes = refl
item-last remaining (failed error) c closes = refl
item-last remaining (head h) c closes = absurd (ground arith)
item-last remaining (chunk bytes) c closes = absurd (ground arith)

call-cons :
    (r : ℕ) (ts : List Turn) (s : ResponseStream) (c : Calling) (x : StreamItem)
    → (take_next s).1 ≡ some x
    → c.returned ≡ none
    → call (turns r ∷ ts) s c ≡ call ts (take_next s).0 (call_item r (some x) c)
unfolding call
call-cons r ts s c x taken returned =
    ap (λ sc. call ts sc.0 sc.1) (call_turn-open r s c returned)
    ∙ ap (λ item. call ts (take_next s).0 (call_item r item c)) taken

gathered :
    (xs : List StreamItem) (t : StreamItem) (rs : List ℕ) (s : ResponseStream) (c : Calling)
    → s.items ≡ xs ++ t ∷ []
    → any is_terminal xs ≡ false
    → is_terminal t ≡ true
    → s.paused ≡ false
    → length rs ≡ suc (length xs)
    → c.returned ≡ none
    → (call (map turns rs) s c).1.returned
      ≡ some (verdict t (last_head xs c.head) (c.body ++ body_of xs))
unfolding call last_head body_of
gathered xs t [] s c items more closes unpaused enough returned = absurd (ground arith)
gathered [] t (r ∷ []) s c items more closes unpaused enough returned =
    let taken = take_next-cons s t [] items unpaused in
    ap (λ sc. sc.1.returned) (call-cons r [] s c t taken.0 returned) ∙ ends_now (take_next s).0
  where
    ends_now :
        (s' : ResponseStream)
        → (call [] s' (call_item r (some t) c)).1.returned ≡ some (verdict t c.head (c.body ++ []))
    ends_now s' =
        item-last r t c closes ∙ ap (λ b. some (verdict t c.head b)) (sym (append-nil c.body))
gathered [] t (r ∷ r' ∷ rs) s c items more closes unpaused enough returned = absurd (ground arith)
gathered (x ∷ xs) t (r ∷ rs) s c items more closes unpaused enough returned =
    let taken = take_next-cons s x (xs ++ t ∷ []) items unpaused in
    let added = item-open r x xs c (ground arith) in
    ap (λ sc. sc.1.returned) (call-cons r (map turns rs) s c x taken.0 returned)
    ∙ gathered xs t rs (take_next s).0 (call_item r (some x) c) taken.1 (ground arith) closes
        taken.2 (ground arith) (added.0 ∙ returned)
    ∙ ap (λ h. some (verdict t h ((call_item r (some x) c).body ++ body_of xs))) added.1
    ∙ ap (λ b. some (verdict t (last_head (x ∷ xs) c.head) b)) added.2

-- A response is whole in the queue, with one end or failure behind its other items: `call` returns
-- within as many turns as there are items, with the bytes of all its chunks in order under the last
-- of its heads, the failure if it ends with one, and an invalid response if there was no head.
pub call_returns_whole :
    (xs : List StreamItem) (t : StreamItem) (rs : List ℕ) (s : ResponseStream)
    → s.items ≡ xs ++ t ∷ []
    → any is_terminal xs ≡ false
    → is_terminal t ≡ true
    → s.paused ≡ false
    → length rs ≡ suc (length xs)
    → (call (map turns rs) s calling).1.returned ≡ some (verdict t (last_head xs none) (body_of xs))
unfolding calling
call_returns_whole xs t rs s items more closes unpaused enough =
    gathered xs t rs s calling items more closes unpaused enough refl
