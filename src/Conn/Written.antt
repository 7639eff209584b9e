-- ===== src/Conn/Written.antt =====
-- What `tcp_send` has written to the local end, and when its loop ends.
use quic_web_rtc_like.Base.{
  ℕ, zero, suc, ◌+◌, ◌-◌, ◌≤◌, ◌≡◌, ◌≢◌, refl, some, [], ◌∷◌, ◌++◌, Bytes, ℤ, pos, negsuc, eqb_ℤ,
  arith, length, take, drop, true, false, Bool, sym, ap, ◌∙◌, take-append-drop, length-drop,
  if◌then◌else◌, inl, inr, Option-cases, is_some,
}
use mathlib.Core.List.{append-nil, append_assoc}
use quic_web_rtc_like.Sys.{
  Os, Trace, Outcome, returned, out_of_fuel, ret, fail, eintr, again, other, did, send, Ret-cases,
}
use quic_web_rtc_like.Conn.{Status, ok, is_error, TcpSession, Conn}
use quic_web_rtc_like.Conn.Tcp.{send_all, tcp_send}

-- The bytes that the system took for the descriptors of a test, in the order of writing.
abbrev pub written_where : (ℤ → Bool) → Trace → Bytes
written_where test [] = []
written_where test (did (send g b) (ret n) ∷ t) =
    if test g then written_where test t ++ take n b else written_where test t
written_where test (_ ∷ t) = written_where test t

-- The bytes that the system took for one descriptor.
abbrev pub written : ℤ → Trace → Bytes
written fd = written_where (eqb_ℤ fd)

-- From some point of the history on, no call is interrupted.
abbrev pub StopsInterrupting : Os → ℕ → Type 0
StopsInterrupting os n =
    (t : Trace) (fd : ℤ) (b : Bytes) → n ≤ length t → os.answer t (send fd b) ≢ fail eintr

eqb_ℤ-refl : (a : ℤ) → eqb_ℤ a a ≡ true
eqb_ℤ-refl (pos n) = ground arith
eqb_ℤ-refl (negsuc n) = ground arith

-- A prefix of `xs` was written, and all of it where the result is success.
abbrev pub WroteWhere : (ℤ → Bool) → Bytes → Trace → Outcome Status → Trace → Type 0
WroteWhere test xs t o t' =
    (q : Bytes) × (rest : Bytes) × (q ++ rest ≡ xs)
    × (written_where test t' ≡ written_where test t ++ q)
    × (o ≡ returned ok → rest ≡ [])

abbrev pub Wrote : ℤ → Bytes → Trace → Outcome Status → Trace → Type 0
Wrote fd = WroteWhere (eqb_ℤ fd)

module _ (test : ℤ → Bool) where
  written-send :
      (fd : ℤ) (b : Bytes) (k : ℕ) (t : Trace)
      → test fd ≡ true
      → written_where test (did (send fd b) (ret k) ∷ t) ≡ written_where test t ++ take k b
  written-send fd b k t counts = rw counts refl

  -- What comes before in the same buffer.
  Wrote-after :
      (xs ys : Bytes) (t t1 t' : Trace) (o : Outcome Status)
      → written_where test t1 ≡ written_where test t ++ xs
      → WroteWhere test ys t1 o t'
      → WroteWhere test (xs ++ ys) t o t'
  Wrote-after xs ys t t1 t' o before (q, rest, parts, wrote, whole) = (
    xs ++ q,
    rest,
    append_assoc xs q rest ∙ ap (λ l. xs ++ l) parts,
    wrote ∙ ap (λ l. l ++ q) before ∙ append_assoc (written_where test t) xs q,
    whole,
  )

  pub send_all-Wrote :
      (os : Os) (fd : ℤ) (fuel : ℕ) (xs : Bytes) (t : Trace)
      → test fd ≡ true
      → let (o, t') = send_all os fd fuel xs t in WroteWhere test xs t o t'
  unfolding send_all
  send_all-Wrote os fd fuel [] t h = ([], [], refl, sym (append-nil _), λ h. refl)
  send_all-Wrote os fd zero (x ∷ xs) t h = ([], x ∷ xs, refl, sym (append-nil _), λ h. cc)
  send_all-Wrote os fd (suc f) (x ∷ xs) t h =
      let W = written_where test in
      let unsent = sym (append-nil (W t)) in
      let t1 : Trace = did (send fd (x ∷ xs)) (os.answer t (send fd (x ∷ xs))) ∷ t in
      elim (Ret-cases (os.answer t (send fd (x ∷ xs)))) [
        | inr (eintr, r) ↦
            let w : W t1 ≡ W t ++ [] = rw r unsent in
            let (o, t') = send_all os fd f (x ∷ xs) t1 in
            rw r (Wrote-after [] (x ∷ xs) t t1 t' o w (send_all-Wrote os fd f (x ∷ xs) t1 h))
        | inr (again, r) ↦
            let w : W t1 ≡ W t ++ [] = rw r unsent in rw r ([], x ∷ xs, refl, w, λ h. cc)
        | inr (other n, r) ↦
            let w : W t1 ≡ W t ++ [] = rw r unsent in rw r ([], x ∷ xs, refl, w, λ h. cc)
        | inl (zero, r) ↦
            let w : W t1 ≡ W t ++ [] = rw r (written-send fd (x ∷ xs) 0 t h) in
            rw r ([], x ∷ xs, refl, w, λ h. cc)
        | inl (suc n, r) ↦
            let w : W t1 ≡ W t ++ x ∷ take n xs = rw r (written-send fd (x ∷ xs) (suc n) t h) in
            let (o, t') = send_all os fd f (drop n xs) t1 in
            let rest : WroteWhere test (x ∷ take n xs ++ drop n xs) t o t' =
              Wrote-after (x ∷ take n xs) (drop n xs) t t1 t' o w
                (send_all-Wrote os fd f (drop n xs) t1 h) in
            rw r (rw take-append-drop at rest)
      ]

-- The results that `tcp_send` has.
send_all-result :
    (os : Os) (fd : ℤ) (fuel : ℕ) (xs : Bytes) (t : Trace) (s : Status)
    → (send_all os fd fuel xs t).0 ≡ returned s
    → is_error s ≡ false
    → s ≡ ok
unfolding send_all
send_all-result os fd fuel [] t s done fine = cc
send_all-result os fd zero (x ∷ xs) t s done fine = cc
send_all-result os fd (suc f) (x ∷ xs) t s done fine =
    let r = os.answer t (send fd (x ∷ xs)) in
    let t1 : Trace = did (send fd (x ∷ xs)) r ∷ t in
    elim (Ret-cases r) [
      | inl (zero, e) ↦ ground arith
      | inl (suc n, e) ↦ ground (arith, send_all-result os fd f (drop n xs) t1 s)
      | inr (why, e) ↦ ground (arith, send_all-result os fd f (x ∷ xs) t1 s)
    ]

-- A result of `tcp_send` that is no error is success.
pub tcp_send-result :
    {D C : Type 0} (os : Os) (fuel : ℕ) (bytes : Bytes) (c : Conn D C) (s : Status)
    → (tcp_send os fuel bytes c).0 ≡ returned s
    → is_error s ≡ false
    → s ≡ ok
unfolding tcp_send
tcp_send-result os fuel bytes c s done fine = elim (Option-cases c.tcp_session) [
  | inl null ↦ ground arith
  | inr (tcp, e) ↦ ground (arith, send_all-result os tcp.accepted_sock fuel bytes c.trace s)
]

-- With enough fuel the loop ends, if the system stops interrupting it.
send_all-ends :
    (os : Os) (fd : ℤ) (n : ℕ)
    → StopsInterrupting os n
    → (fuel : ℕ) (xs : Bytes) (t : Trace) → (n - length t) + length xs ≤ fuel
    → (send_all os fd fuel xs t).0 ≢ out_of_fuel
unfolding send_all
send_all-ends os fd n stops fuel [] t h = λ e. cc
send_all-ends os fd n stops zero (x ∷ xs) t h = absurd (omega arith)
send_all-ends os fd n stops (suc f) (x ∷ xs) t h =
    let r = os.answer t (send fd (x ∷ xs)) in
    let t1 : Trace = did (send fd (x ∷ xs)) r ∷ t in
    elim (Ret-cases r) [
      | inl (zero, e) ↦ ground arith
      | inl (suc k, e) ↦
          ground (arith, send_all-ends os fd n stops f (drop k xs) t1, length-drop k xs)
      | inr (why, e) ↦
          ground (arith, stops t fd (x ∷ xs), send_all-ends os fd n stops f (x ∷ xs) t1)
    ]

-- Whatever the system does, tcp_send on a TCP session has written a prefix of the bytes to the
-- accepted socket, in order and each once; where it reports success, all of them.
pub tcp_send-Wrote :
    {D C : Type 0} (os : Os) (fuel : ℕ) (bytes : Bytes) (c : Conn D C) (tcp : TcpSession)
    → c.tcp_session ≡ some tcp
    → let (o, c') = tcp_send os fuel bytes c in Wrote tcp.accepted_sock bytes c.trace o c'.trace
unfolding tcp_send
tcp_send-Wrote os fuel bytes c tcp h = rw h (
    send_all-Wrote (eqb_ℤ tcp.accepted_sock) os tcp.accepted_sock fuel bytes c.trace
      (eqb_ℤ-refl tcp.accepted_sock))

-- tcp_send ends if calls are no longer interrupted once the history has n events: a fuel of n plus
-- the number of bytes suffices.
pub tcp_send-ends :
    {D C : Type 0} (os : Os) (n fuel : ℕ) (bytes : Bytes) (c : Conn D C)
    → StopsInterrupting os n
    → n + length bytes ≤ fuel
    → (tcp_send os fuel bytes c).0 ≢ out_of_fuel
unfolding tcp_send
tcp_send-ends os n fuel bytes c stops h = elim (Option-cases c.tcp_session) [
  | inl null ↦ ground arith
  | inr (tcp, e) ↦ ground (arith, send_all-ends os tcp.accepted_sock n stops fuel bytes c.trace)
]

-- The bytes that tcp_send has written, wherever they went.
pub tcp_send-Wrote_anywhere :
    {D C : Type 0} (os : Os) (fuel : ℕ) (bytes : Bytes) (c : Conn D C)
    → is_some c.tcp_session ≡ true
    → let (o, c') = tcp_send os fuel bytes c in
      WroteWhere (λ _. true) bytes c.trace o c'.trace × (is_some c'.tcp_session ≡ true)
unfolding tcp_send
tcp_send-Wrote_anywhere os fuel bytes c h = elim (Option-cases c.tcp_session) [
  | inl null ↦ absurd (ground arith)
  | inr (tcp, e) ↦
      rw e (send_all-Wrote (λ _. true) os tcp.accepted_sock fuel bytes c.trace refl, refl)
]
