-- ===== src/Common/Laws.antt =====
-- What the program relies on of the libraries behind `Platform`: ecrypto decrypts what it encrypted
-- and unseals what it sealed, and encoding/json reads back a struct whose strings are ASCII.
use betterkey.Prelude.{◌<◌, ◌≡◌, Option, none, some, Bytes, All}
use betterkey.Common.Hex.{IsByte}
use betterkey.Common.Model.{NodeInfo, MasterSecret, Member, Platform}

abbrev pub IsAscii : Bytes → Type 0
IsAscii s = All (λ b. b < 128) s

abbrev pub IsAsciiInfo : NodeInfo → Type 0
IsAsciiInfo i = IsAscii i.id × IsAscii i.cluster_id

abbrev pub IsAsciiMember : Option NodeInfo → Option MasterSecret → Type 0
IsAsciiMember none none = Unit {0}
IsAsciiMember none (some s) = IsAscii s.secret × IsAscii s.creator_id
IsAsciiMember (some i) none = IsAsciiInfo i
IsAsciiMember (some i) (some s) = IsAsciiInfo i × (IsAscii s.secret × IsAscii s.creator_id)

pub record IsLawful (x : Platform) : Type 0 where
  pub decrypt-encrypt :
      (draw content k sealed : Bytes)
      → x.encrypt draw content k ≡ some sealed
      → x.decrypt sealed k ≡ some content
  pub encrypt-IsByte :
      (draw content k sealed : Bytes)
      → All IsByte content
      → All IsByte k
      → x.encrypt draw content k ≡ some sealed
      → All IsByte sealed
  pub unseal-seal :
      (draw content sealed : Bytes)
      → x.seal_with_product_key draw content ≡ some sealed
      → x.unseal sealed ≡ some content
  pub unmarshal-marshal :
      (m : Member) (json : Bytes)
      → IsAsciiMember m.node_info m.master_secret
      → x.marshal_member m ≡ some json
      → x.unmarshal_member json ≡ some m
