-- ===== src/Program/Opening.antt =====
-- When the web server is opened, and over which key.
use betterkey.Prelude.{
  some-injective, ℕ, ◌≡◌, refl, subst, sym, ap, ◌∙◌, inl, inr, Bool, true, false, List, [], ◌∷◌,
  ◌++◌, Option, none, some, arith, Bool-cases, ◌==◌,
}
use betterkey.Common.Config.{ClusterConfig}
use betterkey.Common.KeyStore.{BaseKeyStore}
use betterkey.Common.Model.{NodeMeta, Member, Platform}
use betterkey.Common.Result.{Result, ok, Post-ok, >>=-eq-ok, ok-injective}
use betterkey.Common.Services.{member_vault}
use betterkey.Sgx.KeyStore.{MasterKeyStore, read, read_through}
use betterkey.Sgx.Report.{EnclaveConfig}
use betterkey.Sgx.Tls.{client_tls_config}
use betterkey.Cluster.Bootstrap.{gets_ready, released}
use betterkey.Cluster.HeartBeat.{local_heart_beat}
use betterkey.Cluster.Message.{node_state_ready}
use betterkey.Cluster.Lifecycle.{Process, Reach}
use betterkey.Cluster.Lifecycle.History.{gets_ready-IsHistory}
use betterkey.Cluster.Lifecycle.Keyed.{has_key, is_there, read-Reads}
use betterkey.Cluster.Lifecycle.ReadyKey.{Reach-IsKeyed}
use betterkey.Cluster.Lifecycle.Telling.{Reach-IsOrderly}
use betterkey.Cluster.Node.{Node, World, Config, node_status}
use betterkey.Cluster.Startup.{Outside, ClusterNode, node_config}
use betterkey.Program.{open_server, bootstrap_round}
use betterkey.Web.Server.{WebServer, new_web_server}

gets_ready-append : (xs ys : List ℕ) → gets_ready xs ≡ true → gets_ready (xs ++ ys) ≡ true
gets_ready-append [] ys e = cc e
gets_ready-append (s ∷ xs) ys e = elim (Bool-cases (s == node_state_ready)) [
  | inl r ↦ rw r refl
  | inr r ↦ rw r (gets_ready-append xs ys (rw r at e))
]

opened : (b : Bool) → ((released b).countdown == 0) ≡ true → b ≡ true
opened true e = refl
opened false e = cc e

-- The wait is over only where the node is READY.
released-ready :
    (x : Platform) (c : Config) (now : ℕ) (p : Process)
    → Reach x c now p
    → (p.listener.countdown == 0) ≡ true
    → p.node.state ≡ node_state_ready
released-ready x c now p r e =
    let v = Reach-IsOrderly x c now p r in
    let told : gets_ready v.told ≡ true =
      opened (gets_ready v.told) (subst (λ l. (l.countdown == 0) ≡ true) v.heard e) in
    let ready : (p.node.state == node_state_ready) ≡ true =
      sym (gets_ready-IsHistory 0 _ p.node.state refl v.history)
      ∙ gets_ready-append v.told p.node.state_change_messages told in
    ground (arith, ready)

module _ (x : Platform) where
  there-some : (o : Option Member) → is_there o ≡ true → (m : Member) × (o ≡ some m)
  there-some none e = cc e
  there-some (some m) e = (m, refl)

  read-again :
      (ks : MasterKeyStore) (m : Member)
      → ks.cached_masterkey ≡ some m
      → read x ks ≡ ok (ks, some m)
  unfolding read read_through
  read-again ks m e = ap (λ o. read_through x o ks) e

  -- What a read that returns finds in a store with a key, and what a later one finds.
  read-twice :
      (ks : MasterKeyStore) (r : MasterKeyStore × Option Member)
      → has_key ks ≡ true
      → read x ks ≡ ok r
      → (m : Member) × (r.1 ≡ some m) × (read x r.0 ≡ ok (r.0, some m))
  read-twice ks r has e =
      let reads = Post-ok _ _ (read-Reads x ks) e in
      let (m, found) = there-some r.1 (reads.0 ∙ has) in
      (m, found, read-again r.0 m (reads.1 ∙ found))

  status-reads :
      (w : World) (n n' : Node) (meta : NodeMeta)
      → (n.state == node_state_ready) ≡ true
      → node_status x w n ≡ ok (n', meta)
      → (r : MasterKeyStore × Option Member) × (read x n.master_ks ≡ ok r)
        × (n'.master_ks ≡ r.0)
        × (n'.state ≡ n.state)
  unfolding node_status
  status-reads w n n' meta ready e =
      let (r, reads, e1) = >>=-eq-ok (read x n.master_ks) _ (rw ready at e) in
      let (hb, beats, e2) =
        >>=-eq-ok (local_heart_beat x (member_vault r.1) w.heartbeat_nonce w.heartbeat_draw) _ e1 in
      (
        r,
        reads,
        ap (λ (q : Node × NodeMeta). q.0.master_ks) (sym (ok-injective e2)),
        ap (λ (q : Node × NodeMeta). q.0.state) (sym (ok-injective e2)),
      )

-- A server that is open: the node is READY, and the server has the settings of the configuration, the
-- store of the node, a vault that is the member in the node's key store, and the client TLS of the node.
pub record IsOpen {S : Type 0} (x : Platform) (o : Outside) (kv : BaseKeyStore S)
    (manages : ℕ → Bool) (c : ClusterConfig) (made : ClusterNode) (p : Process)
    (r : Result (Process × WebServer S)) : Type 0 where
  pub ready : p.node.state ≡ node_state_ready
  pub member : Member
  pub running : Process
  pub kept : (running.node.state ≡ node_state_ready) × (running.listener ≡ p.listener)
  pub stored : read x running.node.master_ks ≡ ok (running.node.master_ks, some member)
  pub returned :
      r
      ≡ ok (
        running,
        new_web_server c kv
            (member_vault (some member))
            (client_tls_config o.enclave o.issuer made.node_tls)
            manages,
      )

opens :
    {S : Type 0} (x : Platform) (o : Outside) (w : World) (kv : BaseKeyStore S) (manages : ℕ → Bool)
    (c : ClusterConfig) (made : ClusterNode) (p : Process) (n : Node) (meta : NodeMeta)
    (ks : MasterKeyStore) (m : Member)
    → node_status x w p.node ≡ ok (n, meta)
    → read x n.master_ks ≡ ok (ks, some m)
    → open_server x o w kv manages c made p
      ≡ ok (
        record p { node = record n { master_ks = ks } },
        new_web_server c kv
            (member_vault (some m))
            (client_tls_config o.enclave o.issuer made.node_tls)
            manages,
      )
unfolding open_server
opens x o w kv manages c made p n meta ks m status reads = rw (status, reads) refl

-- Whatever the node has been through since its start, the wait of the bootstrap is over only where the
-- node is READY. Where the status of the node is there, the web server is then opened: with the member
-- that the key store of the node gives as its vault, never with a nil one, and with the settings, the
-- store and the TLS of the node.
pub bootstrap_round-IsOpen :
    {S : Type 0} (x : Platform) (o : Outside) (w : World) (kv : BaseKeyStore S) (manages : ℕ → Bool)
    (c : ClusterConfig) (e : Option EnclaveConfig) (made : ClusterNode) (now : ℕ) (p : Process)
    (r : Result (Process × WebServer S)) (n : Node) (meta : NodeMeta)
    → Reach x (node_config o c e) now p
    → bootstrap_round x o w kv manages c made p ≡ some r
    → node_status x w p.node ≡ ok (n, meta)
    → IsOpen x o kv manages c made p r
unfolding bootstrap_round open_server
bootstrap_round-IsOpen x o w kv manages c e made now p r n meta reached over status =
    elim (Bool-cases (p.listener.countdown == 0)) [
      | inl done ↦
          let ready = released-ready x (node_config o c e) now p reached done in
          let (found, reads, same_store, same_state) =
            status-reads x w p.node n meta (ground (arith, ready)) status in
          let (m, there, again) =
            read-twice x p.node.master_ks found
              (Reach-IsKeyed x (node_config o c e) now p reached ready) reads in
          record {
            ready = ready;
            member = m;
            running = record p { node = record n { master_ks = found.0 } };
            kept = (same_state ∙ ready, refl);
            stored = again;
            returned =
                some-injective (sym (rw done at over))
                ∙ opens x o w kv manages c made p n meta found.0 m status
                    (subst (λ ks. read x ks ≡ ok (found.0, some m)) (sym same_store) again);
          }
      | inr waits ↦ cc (rw waits at over)
    ]
