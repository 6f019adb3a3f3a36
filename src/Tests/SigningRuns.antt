-- ===== src/Tests/SigningRuns.antt =====
-- A request for signatures, and what the theorem on `SignWithECDSA` says of it.
use betterkey.Prelude.{
  some-injective, ℕ, subst, ◌≡◌, refl, [], ◌∷◌, ◌++◌, Option, none, some, arith, Bytes, str, put,
  same, ◌==◌,
}
use betterkey.Common.Model.{Platform}
use betterkey.Common.Hex.{encode_to_string, decode_string}
use betterkey.Common.Services.{member_vault, vault_hkdf}
use betterkey.Crypto.{p256, ecdsa, scalar, digits, private_key}
use betterkey.Crypto.Signing.{Signer, IsSigning, EcdsaSignature, ecdsa_sign}
use betterkey.Web.KeyService.{VaultKeyService, derive_secret, pem_encode_ec_key_pair}
use betterkey.Web.KeyService.Signing.{
  SigningRequest, SigningResponse, sign_messages, sign_with_ecdsa, IsAnswer,
  sign_with_ecdsa-IsAnswer,
}
use betterkey.Tests.SamplePlatform.{sample}
use betterkey.Tests.WebSamples.{toolkit, zero_bytes}
use betterkey.Tests.StoreRuns.{member}

-- A platform that derives a key whose scalar has full length.
abbrev full_platform : Platform
full_platform = record sample { hkdf = λ k content info n. some (200 ∷ zero_bytes 31) }

abbrev read_pair : Bytes → Option (EcdsaSignature × Bytes)
read_pair [] = none
read_pair (r ∷ []) = none
read_pair (r ∷ s ∷ rest) = some (record { r = r; s = s }, rest)

abbrev signer : Signer
signer = record {
  sign = λ key draw hash. some (record { r = key.x; s = 7 });
  verify = λ public hash signature. signature.r == public.x;
  marshal = λ signature. some (signature.r ∷ signature.s ∷ []);
  unmarshal = read_pair;
}

signer-IsSigning : IsSigning toolkit signer
signer-IsSigning = record {
  verify-sign = λ key_bytes curve key draw hash signature made e. ground arith;
  unmarshal-marshal = λ signature der rest e.
      subst (λ t. read_pair (t ++ rest) ≡ some (signature, rest)) (some-injective e) refl;
}

abbrev service : VaultKeyService
service = record { vault = member_vault (some member); context_prefix = str "dev-" }

abbrev two_messages : SigningRequest
two_messages = record {
  id = str "vm";
  ctx = str "APP";
  mrtd = encode_to_string (1 ∷ 2 ∷ []);
  messages = (str "a", encode_to_string (3 ∷ [])) ∷ (str "b", encode_to_string (4 ∷ [])) ∷ [];
}

abbrev scalar_of_key : ℕ
scalar_of_key = scalar (200 ∷ zero_bytes 31) (toolkit.order p256)

abbrev two_signatures : SigningResponse
two_signatures = record {
  signatures =
      (str "b", encode_to_string (scalar_of_key ∷ 7 ∷ []))
      ∷ (str "a", encode_to_string (scalar_of_key ∷ 7 ∷ []))
      ∷ [];
  public_key = encode_to_string (str "PUBLIC KEY" ++ scalar_of_key ∷ scalar_of_key ∷ []);
}

sign_with_ecdsa-IsAnswer_example :
    IsAnswer toolkit signer full_platform service two_messages two_signatures
unfolding sign_with_ecdsa sign_messages derive_secret vault_hkdf ecdsa digits private_key ecdsa_sign
    pem_encode_ec_key_pair decode_string encode_to_string put same
sign_with_ecdsa-IsAnswer_example =
    sign_with_ecdsa-IsAnswer toolkit signer signer-IsSigning full_platform service (λ msg_id. [])
      two_messages two_signatures refl
