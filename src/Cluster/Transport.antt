-- ===== src/Cluster/Transport.antt =====
-- internal/cluster/transport/tls.go: the frames of packets and streams, and the loop of a listener.
-- Connections are served one after the other, in the order in which they are accepted; the code reads
-- packets in goroutines, so it may deliver them in another order.
pub mod Routing
pub mod Pausing
pub mod Addresses
use betterkey.Prelude.{
  ℕ, zero, suc, ◌+◌, ◌*◌, Bool, true, false, List, [], ◌∷◌, ◌++◌, Bytes, str, length, ltb, ◌==◌,
  if◌then◌else◌,
}
use betterkey.Common.Result.{Result, ok, failed, ◌>>=◌, ◌>>◌, check}

abbrev pub tcp_conn_stream : ℕ
tcp_conn_stream = 0

abbrev pub tcp_conn_packet : ℕ
tcp_conn_packet = 1

-- What crypto/tls makes of a dialled connection: whether it is made, and whether the write succeeds.
pub record Dialer : Type 0 where
  pub dials : Bool
  pub writes : Bool

abbrev pub packet_frame : Bytes → Bytes
packet_frame b = tcp_conn_packet ∷ b

abbrev pub stream_frame : Bytes
stream_frame = tcp_conn_stream ∷ []

-- The bytes that are on the connection in the end.
unfoldable pub write_to_address : Dialer → Bytes → Result Bytes
write_to_address d b = do
  check d.dials (failed (str "dial"))
  check d.writes (failed (str "write"))
  ok (packet_frame b)

unfoldable pub dial_address_timeout : Dialer → Result Bytes
dial_address_timeout d = do
  check d.dials (failed (str "dial"))
  check d.writes (failed (str "write"))
  ok stream_frame

-- An accepted connection: whether the handshake succeeds, the bytes that the peer writes before it
-- closes its side, and whether reading them all ends in an error.
pub record Conn : Type 0 where
  pub handshakes : Bool
  pub sent : Bytes
  pub breaks : Bool

-- What `Accept` returns, and the call of `Shutdown` by another goroutine.
pub data Event : Type 0 where
  accept_failed shutting_down : Event
  accepted : Conn → Event

-- The loop's own variables too: the delay, in milliseconds, and whether the loop goes on. Of a stream
-- the list holds what is left to read.
pub record NetTransport : Type 0 where
  pub shutdown : Bool
  pub loop_delay : ℕ
  pub running : Bool
  pub packet_ch : List Bytes
  pub stream_ch : List Bytes
  pub closed : List Conn

abbrev pub base_delay : ℕ
base_delay = 5

abbrev pub max_delay : ℕ
max_delay = 1000

unfoldable pub next_delay : ℕ → ℕ
next_delay delay =
    let doubled = if delay == 0 then base_delay else delay * 2 in
    if ltb max_delay doubled then max_delay else doubled

abbrev pub close : Conn → NetTransport → NetTransport
close c t = record t { closed = t.closed ++ c ∷ [] }

-- `IngestPacket` with `shouldClose`, on what is behind the type byte.
unfoldable pub ingest_packet : Conn → Bytes → NetTransport → NetTransport
ingest_packet c buf t =
    if c.breaks
    then close c t
    else (if ltb (length buf) 1
        then close c t
        else close c (record t { packet_ch = t.packet_ch ++ buf ∷ [] }))

unfoldable pub route : Conn → Bytes → NetTransport → NetTransport
unfolding ingest_packet
route c [] t = close c t
route c (kind ∷ rest) t =
    if kind == tcp_conn_packet
    then ingest_packet c rest t
    else (if kind == tcp_conn_stream
        then record t { stream_ch = t.stream_ch ++ rest ∷ [] }
        else close c t)

-- A connection whose handshake fails is closed, and counted as accepted all the same: reading from it
-- fails, and it is closed again.
unfoldable pub serve : Conn → NetTransport → NetTransport
unfolding route
serve c t =
    let fresh : NetTransport = record t { loop_delay = 0 } in
    if c.handshakes then route c c.sent fresh else route c [] (close c fresh)

-- `tcpListen`, on what happens one after the other.
unfoldable pub tcp_listen : List Event → NetTransport → NetTransport
unfolding serve next_delay
tcp_listen [] t = t
tcp_listen (shutting_down ∷ es) t = tcp_listen es (record t { shutdown = true })
tcp_listen (accepted c ∷ es) t = tcp_listen es (serve c t)
tcp_listen (accept_failed ∷ es) t =
    let rest = tcp_listen es (record t { loop_delay = next_delay t.loop_delay }) in
    if t.shutdown then record t { running = false } else rest
