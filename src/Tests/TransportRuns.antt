-- ===== src/Tests/TransportRuns.antt =====
-- A listener and its peers, and what the theorems on internal/cluster/transport say of them.
use betterkey.Prelude.{◌≡◌, refl, true, false, [], ◌∷◌, str}
use betterkey.Cluster.Transport.{
  NetTransport, Conn, accept_failed, accepted, packet_frame, tcp_listen,
}

abbrev listening : NetTransport
listening = record {
  shutdown = false;
  loop_delay = 0;
  running = true;
  packet_ch = [];
  stream_ch = [];
  closed = [];
}

abbrev late : Conn
late = record { handshakes = true; sent = packet_frame (str "late"); breaks = false }

late_resets_delay :
    (tcp_listen
      (accept_failed ∷ accept_failed ∷ accepted late ∷ accept_failed ∷ [])
      listening).loop_delay
    ≡ 5
unfolding tcp_listen
late_resets_delay = refl
