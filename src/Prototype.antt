-- ===== src/Prototype.antt =====
-- chownat/C, the first client and server in C: what both have. The arrays have no end here: what a
-- write past one does is not modelled.
pub mod Client
pub mod Server
pub mod Packets
pub mod Ending
pub mod Bounds
pub mod ServerBounds
mod Tests
use quic_web_rtc_like.Base.{
  ℕ, zero, suc, ◌+◌, ◌-◌, ◌%◌, ◌==◌, Bool, not, true, false, List, [], ◌∷◌, Bytes, ℤ, pos,
  minus_one, eqb_ℤ, length, take, overwrite, update, replicate, if◌then◌else◌,
}
use quic_web_rtc_like.Sys.{
  Os, Trace, Addr, ret, fail, failed, socket, bind, send_to, close, perform, receive, got, no_input,
}
use quic_web_rtc_like.Chownat.Msg

-- `chownat` is the UDP socket.
pub record Ends : Type 0 where
  pub chownat : ℤ
  pub dst : Addr
  pub local_addr : Addr

-- The variables of `main`, and the static buffers of the handshakes: `hello` for opening, `bye` for
-- closing. Only the client has `closed`.
pub record State : Type 0 where
  pub sock : ℤ
  pub closed : Bool
  pub id : ℕ
  pub expected : ℕ
  pub buffer : ℕ → Bytes
  pub sizes : ℕ → ℕ
  pub read_fds : List ℤ
  pub hello : Bytes
  pub bye : Bytes
  pub trace : Trace

-- The end of a part of `main`. `exits` is a call of `exit`, or the copy of (size_t)-1 bytes after a
-- read that failed, which no program survives.
pub data Ran : Type 0 where
  goes : State → Ran
  exits : Trace → Ran
  out_of_fuel : Trace → Ran

abbrev pub and_then : Ran → (State → Ran) → Ran
and_then (goes s) k = k s
and_then (exits t) k = exits t
and_then (out_of_fuel t) k = out_of_fuel t

-- `FD_ZERO` and `FD_SET`: what the next `select` watches.
abbrev pub watch : Ends → State → State
watch e s = record s { read_fds = e.chownat ∷ (if eqb_ℤ s.sock minus_one then [] else s.sock ∷ []) }

abbrev pub says : Os → Ends → Bytes → State → State
says os e msg s = record s { trace = (perform os (send_to e.chownat msg e.dst) s.trace).1 }

-- A read into one of the static buffers; a failed one leaves the buffer as it was.
abbrev pub hear : Os → Ends → Bytes → Trace → Bytes × Trace
hear os e buf t =
    let (i, t1) = receive os e.chownat 3 t in
    (elim i [ got b ↦ overwrite b buf | no_input _ ↦ buf ], t1)

-- `id++; if (id == 256) id = 0;`, in the server on 8 bits.
unfoldable pub next_id : ℕ → ℕ
next_id n = if n + 1 == 256 then 0 else n + 1

-- What was read from the local end is kept and sent as a packet.
unfoldable pub forward : Os → Ends → Bytes → State → State
unfolding next_id
forward os e bytes s = says os e (Msg.packet s.id bytes) (record s {
  buffer = update s.buffer s.id (overwrite bytes (s.buffer s.id));
  sizes = update s.sizes s.id (length bytes);
  id = next_id s.id;
})

-- A packet sent again.
abbrev pub resent : State → ℕ → Bytes
resent s i = Msg.packet i (take (s.sizes i) (s.buffer i))

-- `for (uint8_t i = got; i < id; i++)`, on the rounds left.
unfoldable pub resend_rounds : Os → Ends → ℕ → ℕ → State → State
resend_rounds os e zero i s = s
resend_rounds os e (suc n) i s = resend_rounds os e n ((i + 1) % 256) (says os e (resent s i) s)

abbrev pub on_resend : Os → Ends → ℕ → State → State
on_resend os e number s = resend_rounds os e (s.id - number) number s

-- `id = 0; expected = 0;` before a disconnection, and what follows it.
abbrev pub reset : State → State
reset s = record s { id = 0; expected = 0 }

unfoldable pub close_sock : Os → State → State
close_sock os s = record s { sock = minus_one; trace = (perform os (close s.sock) s.trace).1 }

-- The zeros of static storage, its rows having `size` bytes.
abbrev pub at_start : ℕ → Trace → State
at_start size t = record {
  sock = minus_one;
  closed = false;
  id = 0;
  expected = 0;
  buffer = λ _. replicate size 0;
  sizes = λ _. 0;
  read_fds = [];
  hello = 0 ∷ 0 ∷ 0 ∷ [];
  bye = 0 ∷ 0 ∷ 0 ∷ [];
  trace = t;
}

-- The UDP socket, bound to the port of the program; the rest of `main` follows.
unfoldable pub open_udp : Os → Addr → Trace → (ℤ → Trace → Ran) → Ran
open_udp os src t rest =
    let (r, t1) = perform os socket t in
    elim r [
      | fail _ ↦ exits t1
      | ret n ↦
          let (r2, t2) = perform os (bind (pos n) src) t1 in
          if failed r2 then exits t2 else rest (pos n) t2
    ]
