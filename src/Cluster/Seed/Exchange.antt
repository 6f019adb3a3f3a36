-- ===== src/Cluster/Seed/Exchange.antt =====
-- The marks of the map `keyExchangeStat` of seed.go, and the tests on all of them.
use betterkey.Prelude.{Bool, true, false, ◌&&◌, [], ◌∷◌, Dict, if◌then◌else◌}

pub record KeyExchange : Type 0 where
  pub sent_to : Bool
  pub received_from : Bool

abbrev pub Exchanges : Type 0
Exchanges = Dict KeyExchange

-- `for _, v := range stat { if !v.receivedFrom { return false } }`
unfoldable pub all_received : Exchanges → Bool
all_received [] = true
all_received ((j, ex) ∷ m) = if ex.received_from then all_received m else false

-- `for _, ex := range stat { if !ex.sentTo || !ex.receivedFrom { return } }`
unfoldable pub all_complete : Exchanges → Bool
all_complete [] = true
all_complete ((j, ex) ∷ m) = if ex.sent_to && ex.received_from then all_complete m else false
