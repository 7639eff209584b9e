-- ===== src/Lib.antt =====
-- A verification library of QUIC_WebRTC_like: UDP hole punching and a tunnel of a TCP stream over
-- UDP, in C. The paths below are under source/libs/protocols/, that of Utils under source/common/,
-- those of Prototype from the root.
--
-- The parts. An application fills a `udp_conn_t` with a session, a TCP end, a protocol's data and its
-- table of operations, and calls `udp_connection` (udp_conn/src/udp_conn.c), which opens a path
-- through the NAT, binds the local TCP end and then carries bytes between both until the protocol is
-- closed. chownat/src/chownat.c is such a protocol: packets with a number modulo 256, a request for
-- a lost one, keep-alives and a handshake to close. udp_conn/src/udp_transport.c is a UDP socket
-- behind a table of its own, with rules of ownership for its descriptor. ossl_quic/src/ossl_quic.c is
-- another protocol for `udp_connection`, QUIC over OpenSSL.
--
-- The model. State is passed explicitly: a function takes the connection, `none` for a NULL pointer,
-- and gives the new one. Every system call is a question to the parameter `Os`, whose answer is a
-- function of the whole history, and is recorded in that history; theorems hold for every `Os`
-- unless they name a hypothesis on it. The application's callback is a parameter too.
--   Base: Boolean tests, lists over the native numbers, C integers.
--   Sys: the operating system, its calls and the history.
--   Conn: udp_conn.h. Conn/Api: the table of operations. Conn/Phase: returning early. Conn/Tcp:
--     tcp_bind, tcp_recv, tcp_send. Conn/Loop: the loop of udp_connection, one function for each part.
--     Conn/Session: udp_connection, which opens the session first. Conn/Ending,
--     Conn/Written, Conn/Wait: theorems on them. Conn/Kept: what operations keep, and the promises of a
--     function that may end early; Conn/Local, Conn/Rounds, Conn/Keeps carry them through the loop.
--     Conn/Relay, Conn/Relayed: the loop as a relay, over a protocol with the laws of Relays.
--     Conn/Upload, Conn/Uploaded: the other way, over one with the laws of Uploads.
--   Chownat/State, Chownat/Reason: chownat.h. Chownat/Msg: the messages. Chownat/Setup: init, deinit,
--     is_closed, get_timeout, keep-alive, connect. Chownat/Punch, Chownat/Confirm: hole punching.
--     Chownat/Disconnect: both disconnections. Chownat/Transfer: udp_send and udp_recv.
--     Chownat/Backend: the table chownat_api. Chownat/Invariant, Chownat/Closing, Chownat/Delivery,
--     Chownat/Tunnel, Chownat/Stream, Chownat/Opening, Chownat/Retransmit: theorems on them.
--     Chownat/Channel: the tunnel as a queue. Chownat/Quiet, Chownat/Silence: udp_connection over a
--     silent peer. Chownat/Assembly: the stream that a history's datagrams amount to. Chownat/Seen,
--     Chownat/Relaying, Chownat/Assembled, Chownat/Received: chownat as a relay of that stream.
--     Chownat/Genuine: that stream, where a sender's payloads are behind it.
--     Chownat/Heard, Chownat/BothWays: hole punching of two ends. Chownat/Knocking: what the
--     server's hole punching leaves alone. Chownat/Upload, Chownat/Carrying, Chownat/Sent: the way
--     from the local end to the peer. Chownat/Wire, Chownat/Numbering: the datagrams on it.
--     Chownat/EndToEnd: both ends of a tunnel; Chownat/Program: the same from udp_conn_init on.
--   Transport/State: udp_transport.h. Transport/Direct: the functions of direct_ops. Transport/Api:
--     the public functions. Transport/Lifecycle, Transport/Accounts, Transport/Io: theorems on them.
--   Sys/Tls: the calls of OpenSSL that change something. Ossl/Tls: OpenSSL, a parameter.
--   Ossl/State: ossl_quic.h, is_closed and get_timeout. Ossl/Suites: the text of the cipher suites.
--     Ossl/Alpn: the choice of the application protocol.
--     Ossl/Setup: init. Ossl/Punch: hole punching. Ossl/Connect: pre_connect, connect and the
--     keep-alive. Ossl/Transfer: udp_send, udp_recv, pending_data, process_events. Ossl/Close: the
--     shutdown and disconnect. Ossl/Release: deinit. Ossl/Backend: the table ossl_quic_api.
--     Ossl/Joined, Ossl/Found, Ossl/Ended, Ossl/Closed, Ossl/Released: theorems on
--     them. Ossl/Seen, Ossl/Relaying: ossl_quic as a relay. Ossl/Sent: the way to the peer.
--     Ossl/PeerClosed: the peer's close under udp_connection. Ossl/Blind: what punching and closing
--     leave alone. Ossl/Objects, Ossl/Tidy, Ossl/Lifetime: the objects of OpenSSL from udp_conn_init
--     to udp_conn_deinit.
--   Prototype: the first client and server, chownat/C/chownat_client.c and chownat_server.c, which
--     chownat.c was made from: what both have. Prototype/Client, Prototype/Server: the programs.
--     Prototype/Packets, Prototype/Ending, Prototype/Bounds, Prototype/ServerBounds: theorems on them.
--   Utils: usage and msleep of utils/src/utils.c, with atoi a parameter. Utils/Line: the grammar of
--     its command lines. Utils/Inverse: it accepts no others.
--
-- Loops. A loop that counts its rounds recurs on what is left of them: the client's hole punching
-- and the sender's disconnection. The loops that a peer or an interrupted call can prolong take
-- fuel and say so when it runs out: the confirmation, the server's hole punching, the write to the
-- TCP end, the discovery and the shutdown of ossl_quic and the loop of udp_connection. A fuel for
-- the confirmation, the server's hole punching and the write is counted from the point at which
-- the peer falls silent or interruptions stop: one unit for each event until then, and one for
-- each attempt or byte. The shutdown has a deadline, and its fuel is counted from the point at
-- which the clock has passed it. The loops of the first programs have no bound; the server's
-- disconnection gets its fuel like the confirmation. The discovery and the loop of udp_connection
-- have no bound in the source; where the peer is silent, the loop's fuel is counted by the missed
-- keep-alives, and otherwise none is chosen.
--
-- Where the fuel of the confirmation runs out, the history of that loop is not kept: the caller
-- reports it with the connection as it was before the loop.
--
-- Not modelled: debug output; the width of sizes and times, which no value here approaches, but
-- for the packet number's `char` and the unsigned result of udp_send; the code under `#if 0`;
-- quic_like, whose code is a comment; udp_conn_stream.h, declarations that nothing implements;
-- udp_conn_send and udp_conn_recv, which only pass their arguments on to the table; the
-- printing of print_sockaddr_in; tests, simulations, the Perl script, and what a write past the end
-- of an array does.
pub mod Base
pub mod Sys
pub mod Conn
pub mod Chownat
pub mod Transport
pub mod Ossl
pub mod Utils
pub mod Prototype
