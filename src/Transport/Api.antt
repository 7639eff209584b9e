-- ===== src/Transport/Api.antt =====
-- source/libs/protocols/udp_conn/src/udp_transport.c: the public functions. A pointer is an option.
use quic_web_rtc_like.Base.{
  ℕ, Bool, true, false, not, ◌||◌, ◌&&◌, Option, none, some, [], ◌∷◌, Bytes, ℤ, pos, minus_one,
  leb_ℤ, eqb_ℤ, is_some, or_return, take, ◌==◌, if◌then◌else◌,
}
use quic_web_rtc_like.Sys.{
  Os, Trace, Timeval, ret, fail, failed, socket, close, set_sock_opt, reuse_addr, bind, asked,
  perform,
}
use quic_web_rtc_like.Transport.State.{Status, ok, error, Data, direct_ops, Transport, Config}
use quic_web_rtc_like.Transport.Direct.{
  direct_send, direct_recv, direct_wait, direct_close, out_of_set, bad_fd,
}

-- What `init_udp` refuses before any system call.
unfoldable pub rejects : Os → Config → Bool
rejects os cfg =
    bad_fd os cfg.fd
    || bad_fd os cfg.tcp_fd
    || not (cfg.local.sin_family == os.af_inet)
    || not (cfg.peer.sin_family == os.af_inet)
    || (cfg.peer.sin_port == 0)
    || (eqb_ℤ cfg.fd minus_one && cfg.already_bound)

-- The descriptor: the caller's, or a new socket's, which is -1 if there is none.
unfoldable pub obtain_fd : Os → Config → Trace → ℤ × Trace
obtain_fd os cfg t =
    if eqb_ℤ cfg.fd minus_one
    then (let (r, t1) = perform os socket t in
        elim r [ ret n ↦ (pos n, t1) | fail e ↦ (minus_one, t1) ])
    else (cfg.fd, t)

-- Whether the socket is a UDP socket over IPv4, and bound if it has to be.
unfoldable pub check_socket : Os → Config → ℤ → Trace → Bool × Trace
check_socket os cfg fd t =
    let t1 : Trace = asked fd ∷ t in
    or_return (os.sock_type t fd) (false, t1)
      λ type.
        let t2 : Trace = asked fd ∷ t1 in
        or_return (os.sock_name t1 fd) (false, t2)
          λ local. (
            not (
                not (type == os.sock_dgram)
                || not (local.sin_family == os.af_inet)
                || (cfg.already_bound && (local.sin_port == 0))),
            t2,
          )

-- Whether the socket could be bound, where it is not bound already.
unfoldable pub bind_socket : Os → Config → ℤ → Trace → Bool × Trace
bind_socket os cfg fd t =
    if cfg.already_bound
    then (true, t)
    else let reusing : Bool × Trace =
        if cfg.reuse_address
        then (let (r, t') = perform os (set_sock_opt fd (reuse_addr (pos 1))) t in (failed r, t'))
        else (false, t) in
      let (bad, t1) = reusing in
      if bad
      then (false, t1)
      else let (r, t2) = perform os (bind fd cfg.local) t1 in (not (failed r), t2)

-- `goto fail`: a socket made here is closed.
unfoldable pub abandon : Os → Config → ℤ → Trace → Trace
abandon os cfg fd t =
    if eqb_ℤ cfg.fd minus_one && leb_ℤ (pos 0) fd then (perform os (close fd) t).1 else t

unfoldable pub init_udp :
    Os → Option Transport → Option Config → Trace → Status × Option Transport × Trace
init_udp os transport config t =
    or_return transport (error, transport, t)
      λ tr.
        or_return tr.storage (error, transport, t)
          λ _.
            or_return config (error, transport, t)
              λ cfg.
                if is_some tr.ops
                then (error, transport, t)
                else if rejects os cfg
                then (error, transport, t)
                else let (fd, t1) = obtain_fd os cfg t in
                  if out_of_set os fd
                  then (error, transport, abandon os cfg fd t1)
                  else let (usable, t2) = check_socket os cfg fd t1 in
                    if not usable
                    then (error, transport, abandon os cfg fd t2)
                    else let (bound, t3) = bind_socket os cfg fd t2 in
                      if not bound then (error, transport, abandon os cfg fd t3) else (
                        ok,
                        some (record tr {
                          storage = some (record {
                            fd = fd;
                            owns_fd = eqb_ℤ cfg.fd minus_one || cfg.take_ownership;
                            peer = cfg.peer;
                          });
                          tcp_fd = cfg.tcp_fd;
                          ops = some direct_ops;
                        }),
                        t3,
                      )

-- The storage of an active transport (`is_active`).
abbrev pub active : Option Transport → Option Data
active none = none
active (some tr) = elim tr.ops [ none ↦ none | some _ ↦ tr.storage ]

-- `buffer` is NULL where it is `none`.
unfoldable pub send : Os → Option Transport → Option Bytes → ℕ → Trace → Status × Trace
unfolding direct_send
send os transport buffer size t =
    or_return (active transport) (error, t)
      λ udp. elim buffer [
        | none ↦ if size == 0 then direct_send os udp [] t else (error, t)
        | some b ↦ direct_send os udp (take size b) t
      ]

-- The option is `*received` with the bytes it counts: `none` where `received` is NULL.
unfoldable pub recv :
    Os → Option Transport → Bool → ℕ → Bool → Trace → Status × Option Bytes × Trace
unfolding direct_recv
recv os transport has_buffer capacity has_received t =
    if not has_received
    then (error, none, t)
    else or_return (active transport) (error, some [], t)
        λ udp.
          if not has_buffer && not (capacity == 0)
          then (error, some [], t)
          else let (s, received, t1) = direct_recv os udp capacity t in
            elim received [ none ↦ (s, some [], t1) | some b ↦ (s, some b, t1) ]

-- The option is `*events`: `none` where `events` is NULL.
unfoldable pub wait :
    Os → Option Transport → Option Timeval → Bool → Trace → Status × Option ℕ × Trace
unfolding direct_wait
wait os transport timeout has_events t =
    if not has_events
    then (error, none, t)
    else or_return transport (error, some 0, t)
        λ tr.
          or_return (active transport) (error, some 0, t)
            λ udp.
              let (s, events, t1) = direct_wait os udp tr.tcp_fd timeout 0 t in (s, some events, t1)

unfoldable pub set_tcp_fd : Os → Option Transport → ℤ → Status × Option Transport
set_tcp_fd os transport tcp_fd =
    or_return transport (error, transport)
      λ tr.
        if not (is_some (active transport)) || bad_fd os tcp_fd
        then (error, transport)
        else (ok, some (record tr { tcp_fd = tcp_fd }))

unfoldable pub close_transport : Os → Option Transport → Trace → Status × Option Transport × Trace
unfolding direct_close
close_transport os transport t =
    or_return transport (error, transport, t)
      λ tr.
        or_return tr.ops (ok, transport, t)
          λ _.
            or_return tr.storage (error, transport, t)
              λ udp. let (s, tr', t1) = direct_close os tr udp t in (s, some tr', t1)
