-- ===== src/Chownat/Wire.antt =====
-- What a history of chownat has put on the wire: the messages that carry a payload for the first time.
use quic_web_rtc_like.Base.{
  ◌≡◌, refl, ap, ◌∙◌, sym, ◌⊎◌, inl, inr, ℕ, true, suc, zero, ◌≤◌, arith, some, List, [], ◌∷◌, ◌++◌,
  ◌==◌, Bytes, length, get_elem?, flatten, flatten-snoc, Bool-cases, if◌then◌else◌,
}
use quic_web_rtc_like.Sys.{
  Trace, Event, did, asked, waited, clocked, notified, tls, read, ret, send_to,
}
use quic_web_rtc_like.Conn.Kept.{is_silent}
use quic_web_rtc_like.Conn.Relay.{told}
use quic_web_rtc_like.Chownat.State.{mtu}
use quic_web_rtc_like.Chownat.Msg
use quic_web_rtc_like.Chownat.Reason

-- The datagram that the system took last, if it took one last.
abbrev pub last_sent : Trace → Bytes
last_sent (did (send_to fd b a) (ret n) ∷ t) = b
last_sent _ = []

-- Each payload that the callback was told as sent, behind the datagram that was sent just before,
-- oldest first.
abbrev pub posted : Trace → List (Bytes × Bytes)
posted [] = []
posted (notified r b ∷ t) =
    if Reason.udp_data_sent == r then posted t ++ (last_sent t, b) ∷ [] else posted t
posted (_ ∷ t) = posted t

-- What the loop itself causes puts nothing on the wire.
pub posted-silent : (e : Event) (t : Trace) → is_silent e ≡ true → posted (e ∷ t) ≡ posted t
posted-silent (did c r) t quiet = refl
posted-silent (asked fd) t quiet = refl
posted-silent (waited fds tv r) t quiet = refl
posted-silent clocked t quiet = refl
posted-silent (read fd n i) t quiet = refl
posted-silent (notified r b) t quiet = cc
posted-silent (tls k) t quiet = refl

abbrev pub payloads : List (Bytes × Bytes) → List Bytes
payloads [] = []
payloads ((m, p) ∷ l) = p ∷ payloads l

payloads-snoc :
    (l : List (Bytes × Bytes)) (m p : Bytes) → payloads (l ++ (m, p) ∷ []) ≡ payloads l ++ p ∷ []
payloads-snoc [] m p = refl
payloads-snoc ((m', p') ∷ l) m p = ap (λ x. p' ∷ x) (payloads-snoc l m p)

pub length-payloads : (l : List (Bytes × Bytes)) → length (payloads l) ≡ length l
length-payloads [] = refl
length-payloads ((m, p) ∷ l) = ap suc (length-payloads l)

pub get_elem?-payloads :
    (l : List (Bytes × Bytes)) (j : ℕ) (m p : Bytes)
    → get_elem? l j ≡ some (m, p)
    → get_elem? (payloads l) j ≡ some p
get_elem?-payloads [] j m p has = cc
get_elem?-payloads ((m', p') ∷ l) zero m p has = ground arith
get_elem?-payloads ((m', p') ∷ l) (suc j) m p has = get_elem?-payloads l j m p has

pub payloads-get_elem? :
    (l : List (Bytes × Bytes)) (j : ℕ) (p : Bytes)
    → get_elem? (payloads l) j ≡ some p
    → (m : Bytes) × (get_elem? l j ≡ some (m, p))
payloads-get_elem? [] j p has = cc
payloads-get_elem? ((m', p') ∷ l) zero p has = (m', ground arith)
payloads-get_elem? ((m', p') ∷ l) (suc j) p has = payloads-get_elem? l j p has

-- An element of a list that has grown by one.
get_elem?-snoc :
    {A : Type 0} (l : List A) (a b : A) (j : ℕ)
    → get_elem? (l ++ a ∷ []) j ≡ some b
    → (get_elem? l j ≡ some b) ⊎ (j ≡ length l) × (a ≡ b)
get_elem?-snoc [] a b zero has = inr (refl, cc)
get_elem?-snoc [] a b (suc j) has = cc
get_elem?-snoc (x ∷ l) a b zero has = inl has
get_elem?-snoc (x ∷ l) a b (suc j) has = elim (get_elem?-snoc l a b j has) [
  | inl old ↦ inl old
  | inr (last, e) ↦ inr (ap suc last, e)
]

-- The bytes that were told as sent are those of the payloads.
pub told-posted : (t : Trace) → told Reason.udp_data_sent t ≡ flatten (payloads (posted t))
told-posted [] = refl
told-posted (did c r ∷ t) = told-posted t
told-posted (asked fd ∷ t) = told-posted t
told-posted (waited fds tv r ∷ t) = told-posted t
told-posted (clocked ∷ t) = told-posted t
told-posted (tls k ∷ t) = told-posted t
told-posted (read fd n i ∷ t) = told-posted t
told-posted (notified r b ∷ t) = elim (Bool-cases (Reason.udp_data_sent == r)) [
  | inl data_sent ↦ rw data_sent (
      ap (λ l. l ++ b) (told-posted t)
      ∙ sym (flatten-snoc (payloads (posted t)) b)
      ∙ ap flatten (sym (payloads-snoc (posted t) (last_sent t) b)))
  | inr other_one ↦ rw other_one (told-posted t)
]

-- The message of each payload is the packet of its place, and no payload is above the MTU.
abbrev pub Numbered : List (Bytes × Bytes) → Type 0
Numbered l =
    (j : ℕ) (m p : Bytes) → get_elem? l j ≡ some (m, p) → (m ≡ Msg.packet j p) × (length p ≤ mtu)

pub Numbered-snoc :
    (l : List (Bytes × Bytes)) (m p : Bytes)
    → Numbered l
    → m ≡ Msg.packet (length l) p
    → length p ≤ mtu
    → Numbered (l ++ (m, p) ∷ [])
Numbered-snoc l m p so_far this fits j m' p' has = elim (get_elem?-snoc l (m, p) (m', p') j has) [
  | inl old ↦ so_far j m' p' old
  | inr (last, same) ↦
      let e1 : m ≡ m' = ap (λ x. x.0) same in
      let e2 : p ≡ p' = ap (λ x. x.1) same in (sym e1 ∙ this ∙ rw (last, e2) refl, rw (← e2) fits)
]
