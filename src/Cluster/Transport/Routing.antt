-- ===== src/Cluster/Transport/Routing.antt =====
-- internal/cluster/transport/tls.go: what reaches memberlist of what the peers send.
use betterkey.Prelude.{ℕ, suc, true, false, List, [], ◌∷◌, ◌++◌, Bytes}
use betterkey.Cluster.Transport.{Conn, Event, accept_failed, accepted, packet_frame, stream_frame}

-- What the other side of an `Accept` does: a peer sends a packet or opens a stream and writes to it, a
-- client fails the handshake, breaks off, or writes a byte that is no type, or no client is accepted.
pub data Peer : Type 0 where
  sends_packet opens_stream fails_handshake breaks_packet : Bytes → Peer
  writes_unknown : ℕ → Bytes → Peer
  writes_nothing fails_accept : Peer

abbrev pub conn : Bytes → Conn
conn bytes = record { handshakes = true; sent = bytes; breaks = false }

abbrev pub arrives : Peer → Event
arrives (sends_packet b) = accepted (conn (packet_frame b))
arrives (opens_stream b) = accepted (conn (stream_frame ++ b))
arrives (fails_handshake b) = accepted (record { handshakes = false; sent = b; breaks = false })
arrives (breaks_packet b) =
    accepted (record { handshakes = true; sent = packet_frame b; breaks = true })
arrives (writes_unknown k b) = accepted (conn (suc (suc k) ∷ b))
arrives writes_nothing = accepted (conn [])
arrives fails_accept = accept_failed

abbrev pub packets : List Peer → List Bytes
packets [] = []
packets (sends_packet [] ∷ ps) = packets ps
packets (sends_packet (b ∷ bs) ∷ ps) = (b ∷ bs) ∷ packets ps
packets (opens_stream b ∷ ps) = packets ps
packets (fails_handshake b ∷ ps) = packets ps
packets (breaks_packet b ∷ ps) = packets ps
packets (writes_unknown k b ∷ ps) = packets ps
packets (writes_nothing ∷ ps) = packets ps
packets (fails_accept ∷ ps) = packets ps

abbrev pub streams : List Peer → List Bytes
streams [] = []
streams (opens_stream b ∷ ps) = b ∷ streams ps
streams (sends_packet b ∷ ps) = streams ps
streams (fails_handshake b ∷ ps) = streams ps
streams (breaks_packet b ∷ ps) = streams ps
streams (writes_unknown k b ∷ ps) = streams ps
streams (writes_nothing ∷ ps) = streams ps
streams (fails_accept ∷ ps) = streams ps
