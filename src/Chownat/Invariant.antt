-- ===== src/Chownat/Invariant.antt =====
-- The invariant of `chownat_data_t`: every index that the code uses is inside its array.
use quic_web_rtc_like.Base.{
  ℕ, Bool, ◌+◌, ◌%◌, ◌≤◌, ◌<◌, ◌≡◌, ◌≢◌, Option, none, some, Bytes, arith, length, length-overwrite,
  length-replicate,
}
use quic_web_rtc_like.Sys.{Os, Trace}
use quic_web_rtc_like.Conn.{ok, UdpSession, TcpSession}
use quic_web_rtc_like.Chownat.State.{Data, St, Callback, mark_closed, mtu, packet_size}
use quic_web_rtc_like.Chownat.Setup.{init, cleared}
use quic_web_rtc_like.Chownat.Transfer.{
  next_number, store, udp_send, number_of, udp_recv, dispatch, on_packet, on_resend,
}
use quic_web_rtc_like.Chownat.Disconnect.{finish, disconnect_recv, disconnect_send}

pub record IsValid (d : Data) : Type 0 where
  pub id_in : d.id < 256
  pub expected_in : d.expected < 256
  pub rows : (i : ℕ) → length (d.buffer i) ≡ packet_size
  pub sized : (i : ℕ) → d.sizes i ≤ mtu

-- The data of a connection is valid, if it has any.
abbrev pub Valid : Option Data → Type 0
Valid none = Unit
Valid (some d) = IsValid d

-- What is asked of the application's callback: it may use the API, which keeps the invariant.
abbrev pub KeepsValid : Callback → Type 0
KeepsValid callback =
    (r : ℕ) (b : Bytes) (c : St) → Valid c.data_ptr → Valid (callback r b c).data_ptr

pub next_number-lt : (n : ℕ) → n < 256 → next_number n < 256
unfolding next_number
next_number-lt n h = ground arith

pub next_number-mod : (n : ℕ) → next_number (n % 256) ≡ (n + 1) % 256
unfolding next_number
next_number-mod n = ground arith

pub next_number-ne : (n : ℕ) → next_number n ≢ n
unfolding next_number
next_number-ne n = ground arith

pub number_of-lt : (msg : Bytes) → number_of msg < 256
number_of-lt msg = ground arith

pub cleared-IsValid : (d : Data) → IsValid (cleared d)
cleared-IsValid d = record {
  id_in = omega arith;
  expected_in = omega arith;
  rows = λ i. length-replicate {A = ℕ} packet_size 0;
  sized = λ i. omega arith;
}

pub store-IsValid : (p : Bytes) (d : Data) → length p ≤ mtu → IsValid d → IsValid (store p d)
unfolding store
store-IsValid p d h v = record {
  id_in = next_number-lt d.id v.id_in;
  expected_in = v.expected_in;
  rows = λ i. ground (arith, v.rows i, v.rows d.id, length-overwrite p (d.buffer d.id));
  sized = λ i. ground (arith, v.sized i);
}

-- chownat_init leaves data that satisfy the invariant wherever it succeeds, whatever was there
-- before.
pub init-Valid : (os : Os) (c : St) → (init os c).0 ≡ ok → Valid (init os c).1.data_ptr
unfolding init
init-Valid os c h = ground (arith, λ (d : Data). cleared-IsValid d)

pub mark_closed-Valid : (c : St) → Valid c.data_ptr → Valid (mark_closed c).data_ptr
mark_closed-Valid c v = ground arith

pub finish-Valid :
    (close_tcp : TcpSession → Trace → TcpSession × Trace) (d : Data) (c : St)
    → IsValid d
    → Valid (finish close_tcp d c).data_ptr
unfolding finish
finish-Valid close_tcp d c v = ground arith

pub disconnect_send-Valid :
    (os : Os) (c : St) → Valid c.data_ptr → Valid (disconnect_send os c).1.data_ptr
unfolding disconnect_send
disconnect_send-Valid os c v = ground arith

pub disconnect_recv-Valid :
    (os : Os) (fuel : ℕ) (c : St) → Valid c.data_ptr → Valid (disconnect_recv os fuel c).1.data_ptr
unfolding disconnect_recv
disconnect_recv-Valid os fuel c v = grind (arith, finish-Valid)

module _ (os : Os) (callback : Callback) (keeps : KeepsValid callback) where
  -- Sending keeps the invariant of the data on every branch, if the callback keeps it.
  pub udp_send-Valid :
      (p : Bytes) (c : St) → Valid c.data_ptr → Valid (udp_send os callback p c).2.data_ptr
  unfolding udp_send
  udp_send-Valid p c v = grind (arith, keeps, store-IsValid)

  on_resend-Valid :
      (u : UdpSession) (d : Data) (msg : Bytes) (c : St)
      → Valid c.data_ptr
      → Valid (on_resend os callback u d msg c).data_ptr
  unfolding on_resend
  on_resend-Valid u d msg c v = grind (arith, keeps)

  on_packet-Valid :
      (u : UdpSession) (d : Data) (nbytes : ℕ) (msg : Bytes) (c : St)
      → Valid c.data_ptr
      → IsValid d
      → Valid (on_packet os callback u d nbytes msg c).2.data_ptr
  unfolding on_packet
  on_packet-Valid u d nbytes msg c v w = grind (arith, keeps, next_number-lt)

  dispatch-Valid :
      (fuel : ℕ) (u : UdpSession) (d : Data) (nbytes : ℕ) (msg : Bytes) (c : St)
      → Valid c.data_ptr
      → IsValid d
      → Valid (dispatch os callback fuel u d nbytes msg c).2.data_ptr
  unfolding dispatch
  dispatch-Valid fuel u d nbytes msg c v w = grind (
    arith,
    on_resend-Valid u d msg c v,
    on_packet-Valid u d nbytes msg c v w,
    mark_closed-Valid (disconnect_recv os fuel c).1,
    disconnect_recv-Valid os fuel c v,
  )

  -- Receiving keeps the invariant of the data on every branch, whatever message comes, if the
  -- callback keeps it.
  pub udp_recv-Valid :
      (fuel : ℕ) (has_out : Bool) (nbytes : ℕ) (c : St)
      → Valid c.data_ptr
      → Valid (udp_recv os callback fuel has_out nbytes c).2.data_ptr
  unfolding udp_recv
  udp_recv-Valid fuel has_out nbytes c v = grind (arith, dispatch-Valid, mark_closed-Valid)
