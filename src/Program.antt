-- ===== src/Program.antt =====
-- internal/cluster/bootstrap.go: `Start` of the bootstrap, from the node to the web server. The loops of
-- net/http and the wait for a signal come behind.
pub mod Opening
use betterkey.Prelude.{ℕ, Bool, Option, none, some, ◌==◌, if◌then◌else◌}
use betterkey.Common.Config.{ClusterConfig}
use betterkey.Common.KeyStore.{BaseKeyStore}
use betterkey.Common.Model.{Platform}
use betterkey.Common.Result.{Result, ok, ◌>>=◌}
use betterkey.Common.Services.{member_vault}
use betterkey.Sgx.KeyStore.{read}
use betterkey.Sgx.Tls.{client_tls_config}
use betterkey.Cluster.Lifecycle.{Process}
use betterkey.Cluster.Node.{World, node_status}
use betterkey.Cluster.Startup.{Outside, ClusterNode}
use betterkey.Web.Server.{WebServer, new_web_server}

-- The arguments of `NewKeyServer`, evaluated in their order, and its call.
unfoldable pub open_server :
    {S : Type 0}
    → Platform
    → Outside
    → World
    → BaseKeyStore S
    → (ℕ → Bool)
    → ClusterConfig
    → ClusterNode
    → Process
    → Result (Process × WebServer S)
unfolding new_web_server client_tls_config
open_server x o w kv_database manages c made p = do
  (n, node_meta) ← node_status x w p.node
  (ks, vault) ← read x n.master_ks
  ok (
    record p { node = record n { master_ks = ks } },
    new_web_server c kv_database (member_vault vault)
        (client_tls_config o.enclave o.issuer made.node_tls) manages,
  )

-- Behind `countdown.Wait()`, which does not return while the count is above zero.
unfoldable pub bootstrap_round :
    {S : Type 0}
    → Platform
    → Outside
    → World
    → BaseKeyStore S
    → (ℕ → Bool)
    → ClusterConfig
    → ClusterNode
    → Process
    → Option (Result (Process × WebServer S))
unfolding open_server
bootstrap_round x o w kv_database manages c made p =
    if p.listener.countdown == 0
    then some (open_server x o w kv_database manages c made p)
    else none
