-- ===== src/Cluster/Transport/Pausing.antt =====
-- internal/cluster/transport/tls.go: the delay after an error of `Accept`, and the end of the loop.
use betterkey.Prelude.{ℕ, ◌≡◌, ◌≤◌, ◌⊎◌}
use betterkey.Cluster.Transport.{NetTransport, base_delay, max_delay}

-- No delay, or one between the first and the longest.
abbrev pub IsDelay : ℕ → Type 0
IsDelay delay = (delay ≡ 0) ⊎ ((base_delay ≤ delay) × (delay ≤ max_delay))

-- What serving a connection makes of the loop's own variables.
abbrev Resumed : NetTransport → NetTransport → Type 0
Resumed t t' = (t'.loop_delay ≡ 0) × (t'.shutdown ≡ t.shutdown) × (t'.running ≡ t.running)
