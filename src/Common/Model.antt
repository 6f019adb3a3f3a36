-- ===== src/Common/Model.antt =====
-- The structs of internal/common/common.go. A Go pointer that may be nil is an `Option`.
use betterkey.Prelude.{ℕ, Option, none, some, Bytes}

pub record NodeInfo : Type 0 where
  pub id : Bytes
  pub cluster_id : Bytes

pub record MasterSecret : Type 0 where
  pub secret : Bytes
  pub creator_id : Bytes
  pub created : ℕ

pub record Member : Type 0 where
  pub node_info : Option NodeInfo
  pub master_secret : Option MasterSecret

pub record HeartBeat : Type 0 where
  pub nonce : Bytes
  pub value : Bytes

pub record NodeMeta : Type 0 where
  pub id : Bytes
  pub cluster_id : Bytes
  pub state : ℕ
  pub heart_beat : Option HeartBeat

pub record HeartBeatStat : Type 0 where
  pub total : ℕ
  pub errors : ℕ

-- What the vault calls of ecrypto, x/crypto/hkdf and encoding/json, none of which is code of this
-- repository. The first argument of `encrypt` and `seal_with_product_key` is the randomness drawn.
pub record Platform : Type 0 where
  pub encrypt : Bytes → Bytes → Bytes → Option Bytes
  pub decrypt : Bytes → Bytes → Option Bytes
  pub hkdf : Bytes → Bytes → Bytes → ℕ → Option Bytes
  pub seal_with_product_key : Bytes → Bytes → Option Bytes
  pub unseal : Bytes → Option Bytes
  pub marshal_member : Member → Option Bytes
  pub unmarshal_member : Bytes → Option Member

-- The hex text of the secret of a member, where both pointers are there.
abbrev pub secret_of : Member → Option Bytes
secret_of m = elim m.master_secret [ none ↦ none | some s ↦ some s.secret ]
