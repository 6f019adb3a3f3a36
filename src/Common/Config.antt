-- ===== src/Common/Config.antt =====
-- internal/common/common.go: the configuration of a node. Reading the environment is a library's.
use betterkey.Prelude.{ℕ, Bool, List, Bytes}

pub record ClusterConfig : Type 0 where
  pub id : Bytes
  pub encryption_key : Bytes
  pub port : ℕ
  pub peer_addresses : List Bytes
  pub seed_nodes : List Bytes
  pub bind_address : Bytes
  pub node_host : Bytes
  pub master_key_folder : Bytes
  pub valkey_uris : List Bytes
  pub valkey_user : Bytes
  pub valkey_password : Bytes
  pub valkey_namespace : Bytes
  pub valkey_tls : Bool
  pub domains : List Bytes
  pub server_port : ℕ
  pub acme_dns_token : Bytes
  pub acme_owner : Bytes
  pub acme_retry_delay : ℕ
  pub acme_retry_count : ℕ
  pub acme_provider : Bytes
  pub dev_mode : Bool
  pub enforce_seal_quote_verify : Bool
  pub enforce_key_request_quote_verify : Bool
  pub journal_endpoint : Bytes
  pub journal_region : Bytes
  pub journal_access_key : Bytes
  pub journal_secret_key : Bytes
