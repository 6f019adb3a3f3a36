-- ===== src/Sgx/KeyStore.antt =====
-- The store of the master key, internal/sgx/enclave.go. The file at `ks.File` is part of the state.
pub mod Durable
use betterkey.Prelude.{Bool, Option, none, some, [], Bytes, if◌then◌else◌}
use betterkey.Common.Result.{Result, ok, panic, ◌>>=◌}
use betterkey.Common.Services.{deref}
use betterkey.Common.Model.{NodeInfo, MasterSecret, Member, Platform}

-- What `os.ReadFile` meets.
pub data File : Type 0 where
  absent unreadable : File
  holding : Bytes → File

pub record MasterKeyStore : Type 0 where
  pub file : File
  pub configured_node_id : NodeInfo
  pub cached_masterkey : Option Member
  pub has_sgx : Bool

-- `NewMasterkeyStore`: the file is what a former run left there, the cache is empty.
abbrev pub new_masterkey_store : NodeInfo → File → Bool → MasterKeyStore
new_masterkey_store info file has_sgx = record {
  file = file;
  configured_node_id = info;
  cached_masterkey = none;
  has_sgx = has_sgx;
}

unfoldable pub remember : MasterKeyStore → Option Member → MasterKeyStore × Option Member
remember ks none = (ks, none)
remember ks (some m) = (record ks { cached_masterkey = some m }, some m)

module _ (x : Platform) where
  plain_content : Bool → File → Result Bytes
  plain_content has_sgx absent = panic
  plain_content has_sgx unreadable = if has_sgx then deref (x.unseal []) else panic
  plain_content has_sgx (holding content) = if has_sgx then deref (x.unseal content) else ok content

  load_content : Bool → File → Result Member
  unfolding plain_content
  load_content has_sgx file = do
    plain ← plain_content has_sgx file
    deref (x.unmarshal_member plain)

  -- The part of `Read` behind the cache. Each error but a missing file is a panic.
  unfoldable pub load : Bool → File → Result (Option Member)
  unfolding load_content
  load has_sgx absent = ok none
  load has_sgx unreadable = do m ← load_content has_sgx unreadable; ok (some m)
  load has_sgx (holding content) = do m ← load_content has_sgx (holding content); ok (some m)

  unfoldable pub read_through :
      Option Member → MasterKeyStore → Result (MasterKeyStore × Option Member)
  unfolding remember
  read_through (some m) ks = ok (ks, some m)
  read_through none ks = do found ← load ks.has_sgx ks.file; ok (remember ks found)

  unfoldable pub read : MasterKeyStore → Result (MasterKeyStore × Option Member)
  unfolding read_through
  read ks = read_through ks.cached_masterkey ks

  -- `draw` is the randomness of the seal, `written` says whether `os.WriteFile` succeeds. The cache is
  -- left as it was.
  unfoldable pub write : MasterKeyStore → MasterSecret → Bytes → Bool → Result MasterKeyStore
  write ks secret draw written = do
    json ← deref (
        x.marshal_member
          (record { node_info = some ks.configured_node_id; master_secret = some secret }))
    sealed ← if ks.has_sgx then deref (x.seal_with_product_key draw json) else ok json
    if written then ok (record ks { file = holding sealed }) else panic
