-- ===== src/Transport/Direct.antt =====
-- source/libs/protocols/udp_conn/src/udp_transport.c: the functions of `direct_ops`. Each gets the
-- transport with its storage, and the history.
use Prim.Native.Nat.{bit_or}
use quic_web_rtc_like.Base.{
  ℕ, Bool, false, ◌||◌, ◌&&◌, Option, none, some, List, [], ◌∷◌, Bytes, ℤ, pos, minus_one, ltb_ℤ,
  leb_ℤ, length, ◌==◌, if◌then◌else◌,
}
use quic_web_rtc_like.Sys.{
  Os, Trace, Addr, Timeval, Selected, ready, not_ready, is_in, ret, fail, close, send_to, got,
  no_input, read, waited, perform, failed,
}
use quic_web_rtc_like.Transport.State.{
  Status, ok, error, Data, Transport, udp_readable, tcp_readable,
}

-- `sent < 0 || (size_t)sent != length`
unfoldable pub direct_send : Os → Data → Bytes → Trace → Status × Trace
direct_send os udp buffer t =
    let (r, t1) = perform os (send_to udp.fd buffer udp.peer) t in
    elim r [ fail e ↦ (error, t1) | ret n ↦ (if n == length buffer then ok else error, t1) ]

-- What is received, if it is: a failed or truncated message leaves `*received` alone.
unfoldable pub direct_recv : Os → Data → ℕ → Trace → Status × Option Bytes × Trace
direct_recv os udp capacity t =
    let (i, truncated) = os.message t udp.fd capacity in
    let t1 : Trace = read udp.fd capacity i ∷ t in
    elim i [
      | no_input e ↦ (error, none, t1)
      | got b ↦ if truncated then (error, none, t1) else (ok, some b, t1)
    ]

-- A descriptor that `select` cannot watch.
abbrev pub out_of_set : Os → ℤ → Bool
out_of_set os fd = ltb_ℤ fd (pos 0) || leb_ℤ (pos os.fd_setsize) fd

-- `fd < -1 || fd >= FD_SETSIZE`
abbrev pub bad_fd : Os → ℤ → Bool
bad_fd os fd = ltb_ℤ fd minus_one || leb_ℤ (pos os.fd_setsize) fd

-- The descriptors that are watched.
abbrev pub watched : ℤ → ℤ → List ℤ
watched udp_fd tcp_fd = udp_fd ∷ (if leb_ℤ (pos 0) tcp_fd then tcp_fd ∷ [] else [])

-- The flags that are added to `*events`.
unfoldable pub direct_wait : Os → Data → ℤ → Option Timeval → ℕ → Trace → Status × ℕ × Trace
direct_wait os udp tcp_fd timeout events t =
    if out_of_set os udp.fd || bad_fd os tcp_fd
    then (error, events, t)
    else let r : Selected = os.select t (watched udp.fd tcp_fd) timeout in
      let t1 : Trace = waited (watched udp.fd tcp_fd) timeout r ∷ t in
      elim r [
        | not_ready e ↦ (error, events, t1)
        | ready fds ↦
            let e1 = if is_in udp.fd fds then bit_or events udp_readable else events in
            let e2 =
              if leb_ℤ (pos 0) tcp_fd && is_in tcp_fd fds then bit_or e1 tcp_readable else e1 in
            (ok, e2, t1)
      ]

-- An address of zero bytes.
abbrev pub no_addr : Addr
no_addr = record { sin_family = 0; sin_port = 0; sin_addr = 0 }

unfoldable pub direct_close : Os → Transport → Data → Trace → Status × Transport × Trace
direct_close os transport udp t =
    let closing : Bool × Trace =
      if udp.owns_fd
      then (let (r, t') = perform os (close udp.fd) t in (failed r, t'))
      else (false, t) in
    let (bad, t1) = closing in
    (
      if bad then error else ok,
      record transport {
        storage = some (record { fd = minus_one; owns_fd = false; peer = no_addr });
        ops = none;
        tcp_fd = minus_one;
      },
      t1,
    )
