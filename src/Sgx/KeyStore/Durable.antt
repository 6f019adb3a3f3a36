-- ===== src/Sgx/KeyStore/Durable.antt =====
-- What the store of the master key gives back after a write, from the disk and from the cache.
use betterkey.Prelude.{◌≡◌, inl, inr, Bool, none, some, arith, Bytes, Option-cases}
use betterkey.Common.Result.{ok}
use betterkey.Common.Model.{MasterSecret, Member, Platform}
use betterkey.Common.Laws.{IsLawful, IsAscii, IsAsciiInfo}
use betterkey.Sgx.KeyStore.{MasterKeyStore, load, remember, read, write}

abbrev pub written_member : MasterKeyStore → MasterSecret → Member
written_member ks secret = record {
  node_info = some ks.configured_node_id;
  master_secret = some secret;
}

module _ (x : Platform) (lawful : IsLawful x) where
  -- A write that returns has put the member on the disk, and has left the rest as it was.
  pub load-write :
      (ks ks' : MasterKeyStore) (secret : MasterSecret) (draw : Bytes) (written : Bool)
      → IsAsciiInfo ks.configured_node_id
      → IsAscii secret.secret × IsAscii secret.creator_id
      → write x ks secret draw written ≡ ok ks'
      → (load x ks'.has_sgx ks'.file ≡ ok (some (written_member ks secret)))
        × (ks'.cached_masterkey ≡ ks.cached_masterkey)
        × (ks'.configured_node_id ≡ ks.configured_node_id)
        × (ks'.has_sgx ≡ ks.has_sgx)
  unfolding load write
  load-write ks ks' secret draw written plain text e =
      elim (Option-cases (x.marshal_member (written_member ks secret))) [
        | inl bad ↦ ground (arith, bad)
        | inr (json, good) ↦
            let back =
              lawful.unmarshal-marshal (written_member ks secret) json (plain, text) good in
            elim (Option-cases (x.seal_with_product_key draw json)) [
              | inl bad ↦ ground (arith, good, back, bad)
              | inr (sealed, done) ↦
                  ground (arith, good, back, done, lawful.unseal-seal draw json sealed done)
            ]
      ]

  -- Where nothing was read before, a `Read` after a `Write` that returns gives the member that was
  -- written, and caches it; on the plain disk and on the sealed one.
  pub read-write :
      (ks ks' : MasterKeyStore) (secret : MasterSecret) (draw : Bytes) (written : Bool)
      → IsAsciiInfo ks.configured_node_id
      → IsAscii secret.secret × IsAscii secret.creator_id
      → ks.cached_masterkey ≡ none
      → write x ks secret draw written ≡ ok ks'
      → read x ks'
        ≡ ok (
          record ks' { cached_masterkey = some (written_member ks secret) },
          some (written_member ks secret),
        )
  unfolding read remember
  read-write ks ks' secret draw written plain text empty e =
      ground (arith, load-write ks ks' secret draw written plain text e)

  -- Where a member was read before, no later `Write` is seen by `Read`: the cache still gives the
  -- member that was read first, though the disk holds the one that was written.
  pub read-write_cached :
      (ks ks' : MasterKeyStore) (secret : MasterSecret) (draw : Bytes) (written : Bool) (m : Member)
      → IsAsciiInfo ks.configured_node_id
      → IsAscii secret.secret × IsAscii secret.creator_id
      → ks.cached_masterkey ≡ some m
      → write x ks secret draw written ≡ ok ks'
      → (read x ks' ≡ ok (ks', some m))
        × (load x ks'.has_sgx ks'.file ≡ ok (some (written_member ks secret)))
  unfolding read
  read-write_cached ks ks' secret draw written m plain text full e =
      ground (arith, load-write ks ks' secret draw written plain text e)
