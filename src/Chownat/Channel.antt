-- ===== src/Chownat/Channel.antt =====
-- The tunnel in one direction as a client may think of it: a queue of payloads, put in by udp_send
-- and taken out by udp_recv.
use mathlib.Core.Path.{subst, ◌≡⟨◌⟩◌, ◌∎}
use mathlib.Core.List.{append-nil}
use quic_web_rtc_like.Base.{
  true, ℕ, zero, suc, ◌≤◌, ◌≡◌, refl, ◌⊎◌, inl, inr, some, List, [], ◌∷◌, ◌++◌, Bytes, sym, ap,
  arith, false, length, take, drop, get_elem?, get_elem?-some, take-suc, flatten, flatten-snoc,
}
use quic_web_rtc_like.Chownat.State.{Data, St, Callback, mtu}
use quic_web_rtc_like.Chownat.Closing.{IsLive}
use quic_web_rtc_like.Chownat.Delivery.{Ignores}
use quic_web_rtc_like.Chownat.Transfer.{udp_recv}
use quic_web_rtc_like.Chownat.Tunnel.{
  Tunnel, Step, send, deliver, Reach, here, next, Inv, after_delivery, handed_over,
}
use quic_web_rtc_like.Chownat.Stream.{Reach-Inv, deliver-Inv, fresh, fresh-Inv}

-- What a client sees of a step.
pub data Act : Type 0 where
  put get : Bytes → Act
  idle : Act

-- A queue of payloads, the oldest first.
pub data Move : List Bytes → Act → List Bytes → Type 0 where
  enqueue : (q : List Bytes) (p : Bytes) → Move q (put p) (q ++ p ∷ [])
  dequeue : (p : Bytes) (q : List Bytes) → Move (p ∷ q) (get p) q
  stay : (q : List Bytes) → Move q idle q

-- What it has been through from the empty queue, newest first, and what it holds now.
pub data Run : List Act → List Bytes → Type 0 where
  at_start : Run [] []
  and_then :
      {acts : List Act} {a : Act} {q r : List Bytes} → Run acts q → Move q a r → Run (a ∷ acts) r

-- The payloads that were sent and not yet accepted.
abbrev pub waiting : Tunnel → List Bytes
waiting w = drop w.count w.sent

module _ (callback : Callback) where
  -- A send puts its payload in. A delivery gets the bytes that udp_recv returns, or returns none.
  abbrev pub Shows : {w x : Tunnel} → Step callback w x → Act → Type 0
  Shows (send w os p m fits onto) a = a ≡ put p
  Shows (deliver w os fuel i m at ahead behind reads) a =
      let bytes = handed_over (udp_recv os callback fuel true mtu w.receiver).1 in
      ((a ≡ idle) × (bytes ≡ [])) ⊎ (a ≡ get bytes)

  -- One act for each step, newest first.
  abbrev pub ShowsAll : {w x : Tunnel} → Reach callback w x → List Act → Type 0
  ShowsAll here [] = Unit
  ShowsAll here (a ∷ acts) = ⊥
  ShowsAll (next r step) [] = ⊥
  ShowsAll (next r step) (a ∷ acts) = Shows step a × ShowsAll r acts

-- What is left once the next payload is taken.
drop-get_elem? :
    (xs : List Bytes) (n : ℕ) {p : Bytes}
    → get_elem? xs n ≡ some p
    → drop n xs ≡ p ∷ drop (suc n) xs
drop-get_elem? [] n at = cc
drop-get_elem? (x ∷ xs) zero at = cc
drop-get_elem? (x ∷ xs) (suc n) at = drop-get_elem? xs n at

drop-snoc :
    (xs : List Bytes) (n : ℕ) (p : Bytes)
    → n ≤ length xs
    → drop n (xs ++ p ∷ []) ≡ drop n xs ++ p ∷ []
drop-snoc xs zero p h = refl
drop-snoc [] (suc n) p h = absurd (omega arith)
drop-snoc (x ∷ xs) (suc n) p h = drop-snoc xs n p (omega arith)

append_cancel : (xs : Bytes) {ys zs : Bytes} → xs ++ ys ≡ xs ++ zs → ys ≡ zs
append_cancel [] e = e
append_cancel (x ∷ xs) e = append_cancel xs cc

-- A delivery hands over nothing, or the payload that has waited longest.
delivery-Move :
    (w x : Tunnel) (bytes : Bytes)
    → Inv w
    → Inv x
    → x.sent ≡ w.sent
    → x.delivered ≡ w.delivered ++ bytes
    → (x.count ≡ w.count) ⊎ (x.count ≡ suc w.count)
    → (a : Act) × (((a ≡ idle) × (bytes ≡ [])) ⊎ (a ≡ get bytes)) × Move (waiting w) a (waiting x)
delivery-Move w x bytes v v' same grown (inl stays) =
    let kept : w.delivered ++ bytes ≡ w.delivered ++ [] =
      w.delivered ++ bytes
      ≡⟨ sym grown ⟩ x.delivered
      ≡⟨ v'.stream ⟩ flatten (take x.count x.sent)
      ≡⟨ (rw (stays, same)) ⟩ flatten (take w.count w.sent)
      ≡⟨ sym v.stream ⟩ w.delivered
      ≡⟨ sym (append-nil w.delivered) ⟩ w.delivered ++ [] ∎ in
    let same_queue : waiting w ≡ waiting x = rw (stays, same) in
    (
      idle,
      inl (refl, append_cancel w.delivered kept),
      subst (Move (waiting w) idle) same_queue (stay (waiting w)),
    )
delivery-Move w x bytes v v' same grown (inr moves) =
    let upto : suc w.count ≤ length w.sent =
      subst (λ n. n ≤ length w.sent) moves
        (subst (λ (l : List Bytes). x.count ≤ length l) same v'.accepted) in
    let (p, at) = get_elem?-some w.sent w.count upto in
    let extended : w.delivered ++ bytes ≡ w.delivered ++ p =
      w.delivered ++ bytes
      ≡⟨ sym grown ⟩ x.delivered
      ≡⟨ v'.stream ⟩ flatten (take x.count x.sent)
      ≡⟨ (rw (moves, same)) ⟩ flatten (take (suc w.count) w.sent)
      ≡⟨ ap flatten (take-suc w.sent w.count at) ⟩ flatten (take w.count w.sent ++ p ∷ [])
      ≡⟨ flatten-snoc (take w.count w.sent) p ⟩ flatten (take w.count w.sent) ++ p
      ≡⟨ ap (λ (l : Bytes). l ++ p) (sym v.stream) ⟩ w.delivered ++ p ∎ in
    let rest : drop (suc w.count) w.sent ≡ waiting x = rw (moves, same) in
    (
      get p,
      inr (ap get (sym (append_cancel w.delivered extended))),
      subst (λ q. Move q (get p) (waiting x)) (sym (drop-get_elem? w.sent w.count at))
          (subst (Move (p ∷ drop (suc w.count) w.sent) (get p)) rest
            (dequeue p (drop (suc w.count) w.sent))),
    )

module _ (callback : Callback) (ignores : Ignores callback) where
  -- Each step is one move of the queue, and shows it.
  step_refines :
      {w x : Tunnel}
      → Inv w
      → (step : Step callback w x)
      → (a : Act) × Shows callback step a × Move (waiting w) a (waiting x)
  step_refines v (send w os p m fits onto) =
      (put p, refl, rw (drop-snoc w.sent w.count p v.accepted) (enqueue (waiting w) p))
  step_refines v (deliver w os fuel i m at ahead behind reads) =
      delivery-Move w (after_delivery callback w os fuel) _ v
        (deliver-Inv callback ignores w os fuel i m at ahead behind reads v) refl refl
        (ground arith)

  Reach-Run :
      {w x : Tunnel}
      → Inv w
      → waiting w ≡ []
      → (reach : Reach callback w x)
      → (acts : List Act) × ShowsAll callback reach acts × Run acts (waiting x)
  Reach-Run v empty here = ([], tt, subst (Run []) (sym empty) at_start)
  Reach-Run v empty (next r step) =
      let (acts, seen, run) = Reach-Run v empty r in
      let (a, shown, move) = step_refines (Reach-Inv callback ignores v r) step in
      (a ∷ acts, (shown, seen), and_then run move)

-- The tunnel between two open ends with their counters at 0 and callbacks that leave the
-- connection alone refines a queue, step by step, over a network that loses, repeats and reorders
-- packets, none of which arrives more than 255 packets from its turn: each of its runs shows, step
-- for step, the acts of a run of the queue from empty. A send puts its payload in at the end. A
-- delivery either leaves the queue alone, and udp_recv returns no bytes, or takes the payload that
-- has waited longest, and udp_recv returns exactly that one. The queue then holds the payloads
-- sent and not yet accepted.
pub tunnel_refines_channel :
    (callback : Callback)
    → Ignores callback
    → (s r : St) {out into : Data} → IsLive s out
    → IsLive r into
    → (out.closed ≡ false) × (out.id ≡ 0)
    → (into.closed ≡ false) × (into.expected ≡ 0)
    → {x : Tunnel} (reach : Reach callback (fresh s r) x)
    → (acts : List Act) × ShowsAll callback reach acts × Run acts (waiting x)
tunnel_refines_channel callback ignores s r sl rl a b reach =
    Reach-Run callback ignores (fresh-Inv s r sl rl a b) refl reach
