-- ===== src/Web/Server.antt =====
-- internal/web/server.go: the server that `NewKeyServer` makes.
use betterkey.Prelude.{ℕ, Bool, List, Bytes, length, ◌==◌, if◌then◌else◌}
use betterkey.Common.Config.{ClusterConfig}
use betterkey.Common.KeyStore.{BaseKeyStore}
use betterkey.Common.Services.{Vault}
use betterkey.Journal.{Backend, new_journal}
use betterkey.Sgx.Tls.{TlsConfig}
use betterkey.Web.Cert.{AcmeConfig, Managed, setup}
use betterkey.Web.KeyServer.{KeyServer, new_key_server}

pub data ServerTls : Type 0 where
  of_node : TlsConfig → ServerTls
  of_acme : AcmeConfig → Managed → ServerTls

pub record WebServer (S : Type 0) : Type 0 where
  pub key_server : KeyServer S
  pub tls : ServerTls
  pub journal : Backend
  pub port : ℕ
  pub domains : List Bytes
  pub node_host : Bytes

abbrev pub acme_config : ClusterConfig → AcmeConfig
acme_config c = record {
  domains = c.domains;
  dns_token = c.acme_dns_token;
  acme_owner = c.acme_owner;
  acme_provider = c.acme_provider;
  node_id = c.node_host;
  retry_delay = c.acme_retry_delay;
  retry_count = c.acme_retry_count;
}

abbrev pub choose_tls : ClusterConfig → TlsConfig → (ℕ → Bool) → ServerTls
choose_tls c node_tls_config manages =
    if length c.acme_dns_token == 0
    then of_node node_tls_config
    else of_acme (acme_config c) (setup (acme_config c) manages)

-- The whole of `NewKeyServer`.
unfoldable pub new_web_server :
    {S : Type 0} → ClusterConfig → BaseKeyStore S → Vault → TlsConfig → (ℕ → Bool) → WebServer S
unfolding setup new_key_server new_journal
new_web_server c kv_store vault node_tls_config manages = record {
  key_server =
      new_key_server
        (record {
          dev_mode = c.dev_mode;
          enforce_key_request_quote_verify = c.enforce_key_request_quote_verify;
          enforce_seal_quote_verify = c.enforce_seal_quote_verify;
        })
        kv_store vault;
  tls = choose_tls c node_tls_config manages;
  journal = new_journal (record {
    endpoint = c.journal_endpoint;
    region = c.journal_region;
    access_key = c.journal_access_key;
    secret_key = c.journal_secret_key;
  });
  port = c.server_port;
  domains = c.domains;
  node_host = c.node_host;
}
