-- ===== src/Chownat/Sent.antt =====
-- What the local end sends goes to the peer, under `udp_connection` over chownat.
use quic_web_rtc_like.Base.{◌≡◌, ap, ◌∙◌, sym, ℕ, true, false, arith, [], ◌++◌, Bytes}
use quic_web_rtc_like.Sys.{Os}
use quic_web_rtc_like.Conn.{is_set}
use quic_web_rtc_like.Conn.Relay.{told, taken}
use quic_web_rtc_like.Conn.Upload.{Uploads}
use quic_web_rtc_like.Conn.Upload as Way
use quic_web_rtc_like.Conn.Uploaded.{udp_connection-uploads}
use quic_web_rtc_like.Conn.Session.{udp_connection}
use quic_web_rtc_like.Chownat.State.{St, Callback}
use quic_web_rtc_like.Chownat.Setup.{is_closed, connect, send_keep_alive}
use quic_web_rtc_like.Chownat.Punch.{hole_punching}
use quic_web_rtc_like.Chownat.Disconnect.{disconnect_send}
use quic_web_rtc_like.Chownat.Transfer.{udp_recv}
use quic_web_rtc_like.Chownat.Backend.{chownat_api}
use quic_web_rtc_like.Chownat.Delivery.{Ignores}
use quic_web_rtc_like.Chownat.Reason
use quic_web_rtc_like.Chownat.Upload.{
  Keeps, Keeps-refl, AllSet, standing, shut, send_keep_alive-Keeps, hole_punching-Keeps,
  disconnect_send-Keeps, disconnect_send-shut,
}
use quic_web_rtc_like.Chownat.Carrying.{connect-Keeps, udp_recv-Keeps, udp_send-carried}

closes-shut : (c : St) → is_set (is_closed c) ≡ shut c
unfolding is_closed
closes-shut c = ground arith

module _ (os : Os) (callback : Callback) (ignores : Ignores callback) (fuel : ℕ) where
  -- An operation of chownat, as udp_connection sees it.
  as_way :
      (c c1 : St)
      → Keeps c c1
      → Way.Keeps AllSet Reason.udp_data_sent (chownat_api os callback fuel) c c1
  as_way c c1 k = (
    (ap (λ v. (v.0, v.1)) k.amounts, λ set. k.pointers ∙ set),
    λ over. closes-shut c1 ∙ k.closed (sym (closes-shut c) ∙ over),
  )

  pub chownat_api-Uploads :
      Uploads AllSet (λ o. Unit) Reason.udp_data_sent (chownat_api os callback fuel)
  chownat_api-Uploads = record {
    done = λ s. tt;
    moved-Ready = λ c t tcp set. set;
    moved-closes = λ c t. closes-shut (record c { trace = t }) ∙ sym (closes-shut c);
    get_timeout = λ c. as_way c c (Keeps-refl c);
    process_events = λ c f e. cc;
    hole_punching = λ c. (as_way c (hole_punching os fuel c).1 (hole_punching-Keeps os fuel c)).0;
    connect = λ c. (as_way c (connect callback c).1 (connect-Keeps os callback ignores c)).0;
    udp_recv = λ n c.
        as_way c (udp_recv os callback fuel true n c).2
          (udp_recv-Keeps os callback ignores fuel n c);
    send_keep_alive = λ c. as_way c (send_keep_alive os c).1 (send_keep_alive-Keeps os c);
    disconnect = λ c. as_way c (disconnect_send os c).1 (disconnect_send-Keeps os c);
    disconnect-closes =
        λ c set ends. closes-shut (disconnect_send os c).1 ∙ disconnect_send-shut os c set;
    udp_send = λ b c.
        let (same, reported, pointers) = udp_send-carried os callback ignores b c in
        (same, reported, λ set. pointers ∙ set);
  }

  -- However long udp_connection runs over chownat, whatever the network does and however it ends,
  -- the bytes that the callback was told as sent are a prefix of those that the local end had
  -- sent, in order and each once, and unless the session is closed all of them; the callback
  -- leaves the connection alone, every pointer is set and the control initialised, and at the
  -- start nothing is left to send.
  pub sent_stream :
      (c : St)
      → standing c ≡ (true, true, true, true)
      → taken c.trace ≡ told Reason.udp_data_sent c.trace
      → let (_, c') = udp_connection os (chownat_api os callback fuel) fuel c in
        (rest : Bytes) × (taken c'.trace ≡ told Reason.udp_data_sent c'.trace ++ rest)
        × (shut c' ≡ false → rest ≡ [])
  sent_stream c set even =
      let api = chownat_api os callback fuel in
      let c' = (udp_connection os api fuel c).1 in
      let (rest, left, whole) =
        udp_connection-uploads os api AllSet (λ o. Unit) Reason.udp_data_sent chownat_api-Uploads
          fuel c set even in
      (rest, left, λ still. whole tt (closes-shut c' ∙ still))
