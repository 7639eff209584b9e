-- ===== src/Chownat/Heard.antt =====
-- What a history of chownat has said to the peer and heard from it, as messages of three bytes.
use quic_web_rtc_like.Base.{
  ◌≡◌, ◌⊎◌, refl, sym, ◌∙◌, true, [], ◌∷◌, Bytes, ℤ, take, inl, inr, overwrite, starts_with,
}
use quic_web_rtc_like.Sys.{
  Trace, Input, got, no_input, read, did, send_to, socket, close, set_sock_opt, bind, listen,
  accept, connect, send, asked, waited, clocked, notified, tls,
}
use quic_web_rtc_like.Chownat.Msg

-- A message was sent.
abbrev pub Said : Bytes → Trace → Type 0
Said m [] = ⊥
Said m (did (send_to fd b a) r ∷ t) = (b ≡ m) ⊎ Said m t
Said m (_ ∷ t) = Said m t

-- A read of three bytes has made the message in some buffer, which keeps what a short one leaves.
abbrev pub Heard : Bytes → Trace → Type 0
Heard m [] = ⊥
Heard m (read fd n (got b) ∷ t) =
    ((n ≡ 3) × (buf : Bytes) × (starts_with m (overwrite b buf) ≡ true)) ⊎ Heard m t
Heard m (_ ∷ t) = Heard m t

-- Every datagram that was sent is one message, or the confirmation after another was heard.
abbrev pub Says : Bytes → Bytes → Trace → Type 0
Says other_one first [] = Unit
Says other_one first (did (send_to fd b a) r ∷ t) =
    Says other_one first t × ((b ≡ other_one) ⊎ ((b ≡ Msg.confirm) × Heard first t))
Says other_one first (_ ∷ t) = Says other_one first t

-- Every datagram that was read is the head of one that the peer has sent.
abbrev pub HearsFrom : Trace → Trace → Type 0
HearsFrom p [] = Unit
HearsFrom p (read fd n (got b) ∷ t) = HearsFrom p t × ((m : Bytes) × Said m p × (b ≡ take n m))
HearsFrom p (_ ∷ t) = HearsFrom p t

pub Said-Says :
    (o first : Bytes) (t : Trace) (m : Bytes)
    → Says o first t
    → Said m t
    → (m ≡ o) ⊎ ((m ≡ Msg.confirm) × Heard first t)
Said-Says o first [] m says said = absurd said
Said-Says o first (did (send_to fd b a) r ∷ t) m (says, this) (inl e) = elim this [
  | inl e1 ↦ inl (sym e ∙ e1)
  | inr (e1, heard) ↦ inr (sym e ∙ e1, heard)
]
Said-Says o first (did (send_to fd b a) r ∷ t) m (says, this) (inr old) =
    Said-Says o first t m says old
Said-Says o first (did socket r ∷ t) m says said = Said-Says o first t m says said
Said-Says o first (did (close fd) r ∷ t) m says said = Said-Says o first t m says said
Said-Says o first (did (set_sock_opt fd x) r ∷ t) m says said = Said-Says o first t m says said
Said-Says o first (did (bind fd a) r ∷ t) m says said = Said-Says o first t m says said
Said-Says o first (did (listen fd n) r ∷ t) m says said = Said-Says o first t m says said
Said-Says o first (did (accept fd) r ∷ t) m says said = Said-Says o first t m says said
Said-Says o first (did (connect fd a) r ∷ t) m says said = Said-Says o first t m says said
Said-Says o first (did (send fd b) r ∷ t) m says said = Said-Says o first t m says said
Said-Says o first (asked fd ∷ t) m says said = Said-Says o first t m says said
Said-Says o first (waited fds tv r ∷ t) m says said = Said-Says o first t m says said
Said-Says o first (clocked ∷ t) m says said = Said-Says o first t m says said
Said-Says o first (notified r b ∷ t) m says said = Said-Says o first t m says said
Said-Says o first (tls k ∷ t) m says said = Said-Says o first t m says said
Said-Says o first (read fd n (no_input e) ∷ t) m says said = Said-Says o first t m says said
Said-Says o first (read fd n (got b) ∷ t) m says said = elim (Said-Says o first t m says said) [
  | inl e ↦ inl e
  | inr (e, heard) ↦ inr (e, inr heard)
]

-- What was heard was said, in the first three bytes of a message of the peer.
pub Heard-Said :
    (p t : Trace) (m : Bytes)
    → HearsFrom p t
    → Heard m t
    → (whole buf : Bytes) × Said whole p × (starts_with m (overwrite (take 3 whole) buf) ≡ true)
Heard-Said p [] m from heard = absurd heard
Heard-Said p (did c r ∷ t) m from heard = Heard-Said p t m from heard
Heard-Said p (asked fd ∷ t) m from heard = Heard-Said p t m from heard
Heard-Said p (waited fds tv r ∷ t) m from heard = Heard-Said p t m from heard
Heard-Said p (clocked ∷ t) m from heard = Heard-Said p t m from heard
Heard-Said p (notified r b ∷ t) m from heard = Heard-Said p t m from heard
Heard-Said p (tls k ∷ t) m from heard = Heard-Said p t m from heard
Heard-Said p (read fd n (no_input e) ∷ t) m from heard = Heard-Said p t m from heard
Heard-Said p (read fd n (got b) ∷ t) m (from, origin) (inr old) = Heard-Said p t m from old
Heard-Said p (read fd n (got b) ∷ t) m (from, (whole, said, e)) (inl (three, buf, makes)) =
    (whole, buf, said, rw (e, three) at makes)

-- A read leaves what was said, and what was heard stays heard.
pub Says-read :
    (o first : Bytes) (fd : ℤ) (i : Input) (t : Trace)
    → Says o first t
    → Says o first (read fd 3 i ∷ t)
Says-read o first fd (got b) t says = says
Says-read o first fd (no_input e) t says = says

pub Heard-read :
    (m : Bytes) (fd : ℤ) (i : Input) (t : Trace) → Heard m t → Heard m (read fd 3 i ∷ t)
Heard-read m fd (got b) t heard = inr heard
Heard-read m fd (no_input e) t heard = heard

pub Heard-got :
    (m : Bytes) (fd : ℤ) (i : Input) (b buf : Bytes) (t : Trace)
    → i ≡ got b
    → starts_with m (overwrite b buf) ≡ true
    → Heard m (read fd 3 i ∷ t)
Heard-got m fd (got x) b buf t e makes = inl (refl, buf, rw (← got_inj e) at makes)
  where
    got_inj : {x y : Bytes} → got x ≡ got y → x ≡ y
    got_inj e = cc
Heard-got m fd (no_input x) b buf t e makes = cc
