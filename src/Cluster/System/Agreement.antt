-- ===== src/Cluster/System/Agreement.antt =====
-- The master keys of the nodes of a fresh cluster, over every schedule. The children follow the
-- key through the parts of the state, the seed, the handlers, the message loop and the start of a
-- node.
mod Keys
mod Seeding
mod Nodes
mod Messages
mod Tasks
mod Beginning
use betterkey.Prelude.{
  ℕ, zero, suc, ◌≡◌, ◌≢◌, refl, ap, inl, inr, ◌∙◌, sym, Bool, true, false, List, [], ◌∷◌, Option,
  none, some, arith, Bytes, All, All-append, Bool-cases, Option-cases, same, eq_of_same, get_elem?,
  ◌==◌, subst, ◌⊎◌,
}
use betterkey.Common.Hex.{IsByte}
use betterkey.Common.Result.{Result, ok, err, panic, Post, Post-bind, Post-then}
use betterkey.Common.Model.{Platform}
use betterkey.Common.Laws.{IsLawful, IsAscii}
use betterkey.Common.Set.{sorted}
use betterkey.Common.Set.Order.{SameElements}
use betterkey.Sgx.KeyStore.{absent}
use betterkey.Cluster.Message.{Envelope, node_state_no_key, node_state_ready}
use betterkey.Cluster.Election.{names_of}
use betterkey.Cluster.Node.{Node, World, Task, Config, new_node, start, on_no_key_round}
use betterkey.Cluster.Node.Delegate.{notify_msg}
use betterkey.Cluster.Node.Handlers.{loop_round, run_task}
use betterkey.Cluster.System.{
  Status, unborn, stopped, running, System, nothing_yet, Event, boot, look_for_key, deliver, handle,
  run, set_node, outcome, at_node, remove_at, sent, boot_node, deliver_envelope, run_at, step,
  run_all,
}
pub use Keys.{HasKey}
use Keys.{IsGood, IsGoodTask, AreGoodTasks, AreGoodEnvelopes}
use Nodes.{IsGoodNode}
use Messages.{loop_round-IsGoodNode, notify_msg-IsGoodNode}
use Tasks.{run_task-AfterTask, tasks-IsGoodNode}
use Beginning.{start-IsGoodNode, on_no_key_round-IsGoodNode}

-- The schedules of a fresh cluster: each node is configured with the same seed nodes, with ASCII
-- names, and finds no key file; the random source of node `i`, which it asks for a master key at most
-- once, would give it `draw i`.
abbrev pub Fits : List Bytes → (Bytes → Bytes) → Event → Type 0
Fits seeds draw (boot c now) =
    (c.file ≡ absent) × SameElements c.seed_nodes seeds × (IsAscii c.node_host × IsAscii c.id)
Fits seeds draw (look_for_key i w) = w.master_key ≡ draw i
Fits seeds draw (deliver k) = Unit {0}
Fits seeds draw (handle i w) = Unit {0}
Fits seeds draw (run i k w) = Unit {0}

abbrev IfSome {ℓ} : {A : Type 0} → (A → Type ℓ) → Option A → Type ℓ
IfSome P none = Unit
IfSome P (some a) = P a

All-get_elem? {ℓ} :
    {A : Type 0} (P : A → Type ℓ) (xs : List A) (k : ℕ) → All P xs → IfSome P (get_elem? xs k)
All-get_elem? P [] k h = tt
All-get_elem? P (x ∷ xs) zero h = h.0
All-get_elem? P (x ∷ xs) (suc k) h = All-get_elem? P xs k h.1

All-remove_at : (P : Task → Type 0) (ts : List Task) (k : ℕ) → All P ts → All P (remove_at ts k)
unfolding remove_at
All-remove_at P [] k h = tt
All-remove_at P (t ∷ ts) zero h = h.1
All-remove_at P (t ∷ ts) (suc k) h = (h.0, All-remove_at P ts k h.1)

module _ (x : Platform) (lawful : IsLawful x) (seeds : List Bytes) (draw : Bytes → Bytes)
    (leader : Bytes) (rest : List Bytes) (first : sorted (names_of seeds) ≡ leader ∷ rest)
    (bytes : All IsByte (draw leader)) where
  abbrev IsGoodStatus : Bytes → Status → Type 0
  IsGoodStatus i unborn = Unit {0}
  IsGoodStatus i stopped = Unit {0}
  IsGoodStatus i (running n) = IsGoodNode x (draw leader) seeds i n

  record IsGoodSystem (s : System) : Type 0 where
    nodes : (i : Bytes) → IsGoodStatus i (s.nodes i)
    net : AreGoodEnvelopes (draw leader) s.net

  set_node-IsGoodSystem :
      (i : Bytes) (st : Status) (s : System)
      → IsGoodStatus i st
      → IsGoodSystem s
      → IsGoodSystem (set_node i st s)
  unfolding set_node
  set_node-IsGoodSystem i st s h v = record {
    nodes = λ j. elim (Bool-cases (same i j)) [
      | inl e ↦ rw e (subst (λ t. IsGoodStatus t st) (eq_of_same i j e) h)
      | inr e ↦ rw e (v.nodes j)
    ];
    net = v.net;
  }

  outcome-IsGoodSystem :
      (i : Bytes) (r : Result Node) (s : System)
      → Post (IsGoodNode x (draw leader) seeds i) r
      → IsGoodSystem s
      → IsGoodSystem (outcome i r s)
  unfolding outcome
  outcome-IsGoodSystem i (ok n) s h v = set_node-IsGoodSystem i (running n) s h v
  outcome-IsGoodSystem i (err e) s h v = set_node-IsGoodSystem i stopped s tt v
  outcome-IsGoodSystem i panic s h v = set_node-IsGoodSystem i stopped s tt v

  at_node-IsGoodSystem :
      (i : Bytes) (st : Status) (f : Node → System) (s : System)
      → IsGoodStatus i st
      → IsGoodSystem s
      → ((n : Node) → IsGoodNode x (draw leader) seeds i n → IsGoodSystem (f n))
      → IsGoodSystem (at_node st f s)
  at_node-IsGoodSystem i unborn f s h v k = v
  at_node-IsGoodSystem i stopped f s h v k = v
  at_node-IsGoodSystem i (running n) f s h v k = k n h

  boot_node-IsGoodSystem :
      (st : Status) (c : Config) (now : ℕ) (s : System)
      → Fits seeds draw (boot c now)
      → IsGoodSystem s
      → IsGoodSystem (boot_node x st c now s)
  unfolding boot_node
  boot_node-IsGoodSystem unborn c now s f v =
      outcome-IsGoodSystem c.node_host (start x (new_node c now)) s
        (start-IsGoodNode x (draw leader) seeds c now f.0 f.1 f.2) v
  boot_node-IsGoodSystem stopped c now s f v = v
  boot_node-IsGoodSystem (running n) c now s f v = v

  deliver-IsGoodSystem :
      (o : Option Envelope) (s : System)
      → IfSome (λ e. IsGood (draw leader) e.message) o
      → IsGoodSystem s
      → IsGoodSystem (deliver_envelope x o s)
  unfolding deliver_envelope
  deliver-IsGoodSystem none s h v = v
  deliver-IsGoodSystem (some e) s h v =
      at_node-IsGoodSystem e.target (s.nodes e.target) _ s (v.nodes e.target) v (λ n good.
        outcome-IsGoodSystem e.target (notify_msg (some e.message) n) s
          (notify_msg-IsGoodNode x lawful (draw leader) bytes seeds e.target e.message n h good) v)

  run_at-IsGoodSystem :
      (o : Option Task) (i : Bytes) (k : ℕ) (w : World) (n : Node) (s : System)
      → get_elem? n.tasks k ≡ o
      → IfSome (IsGoodTask (draw leader)) o
      → IsGoodNode x (draw leader) seeds i n
      → IsGoodSystem s
      → IsGoodSystem (run_at x o i k w n s)
  unfolding run_at sent
  run_at-IsGoodSystem none i k w n s e h good v = v
  run_at-IsGoodSystem (some t) i k w n s e h good v =
      let old : n.state ≢ node_state_no_key =
        λ u. cc (e, ap (λ ts. get_elem? ts k) (good.unsown u).1) in
      let (good', out) =
        run_task-AfterTask x lawful (draw leader) bytes seeds i w t
          (record n { tasks = remove_at n.tasks k }) old h
          (tasks-IsGoodNode x lawful (draw leader) bytes seeds i n (remove_at n.tasks k) old
            (All-remove_at (IsGoodTask (draw leader)) n.tasks k good.good_tasks) good) in
      let u = set_node-IsGoodSystem i (running _) s good' v in
      record {
        nodes = u.nodes;
        net = All-append (λ m. IsGood (draw leader) m.message) s.net _ v.net out;
      }

  step-IsGoodSystem :
      (s : System) (e : Event) → Fits seeds draw e → IsGoodSystem s → IsGoodSystem (step x s e)
  unfolding step
  step-IsGoodSystem s (boot c now) f v = boot_node-IsGoodSystem (s.nodes c.node_host) c now s f v
  step-IsGoodSystem s (look_for_key i w) f v =
      at_node-IsGoodSystem i (s.nodes i) _ s (v.nodes i) v (λ n good.
        elim (Bool-cases (n.state == node_state_no_key)) [
          | inl e ↦ rw e (
              outcome-IsGoodSystem i (on_no_key_round w n) s
                (on_no_key_round-IsGoodNode x draw seeds leader rest first i w n f
                  (ground (arith, e)) good)
                v)
          | inr e ↦ rw e v
        ])
  step-IsGoodSystem s (deliver k) f v =
      deliver-IsGoodSystem (get_elem? s.net k) s (All-get_elem? _ s.net k v.net) v
  step-IsGoodSystem s (handle i w) f v =
      at_node-IsGoodSystem i (s.nodes i) _ s (v.nodes i) v (λ n good.
        outcome-IsGoodSystem i (loop_round x w n) s
          (loop_round-IsGoodNode x lawful (draw leader) bytes seeds i w n good) v)
  step-IsGoodSystem s (run i k w) f v =
      at_node-IsGoodSystem i (s.nodes i) _ s (v.nodes i) v (λ n good.
        run_at-IsGoodSystem (get_elem? n.tasks k) i k w n s refl
          (All-get_elem? _ n.tasks k good.good_tasks) good v)

  run_all-IsGoodSystem :
      (s : System) (es : List Event)
      → All (Fits seeds draw) es
      → IsGoodSystem s
      → IsGoodSystem (run_all x s es)
  unfolding run_all
  run_all-IsGoodSystem s [] f v = v
  run_all-IsGoodSystem s (e ∷ es) f v =
      run_all-IsGoodSystem (step x s e) es f.1 (step-IsGoodSystem s e f.0 v)

  -- In a fresh cluster whose nodes are all configured with the same seed nodes, after any schedule of
  -- starts, rounds of `onNoKey`, arrivals of messages (late, repeated, reordered or lost), rounds of
  -- the message loop and goroutines, with any members, failing sends and failing writes: a running
  -- node that is READY has on its disk the key that the first of the sorted seed nodes drew, and no
  -- other; so any two READY nodes hold the same master key.
  pub key_agreement :
      (es : List Event) (i : Bytes) (n : Node)
      → All (Fits seeds draw) es
      → (run_all x nothing_yet es).nodes i ≡ running n
      → n.state ≡ node_state_ready
      → HasKey x (draw leader) n.master_ks
  key_agreement es i n f e r =
      let v = run_all-IsGoodSystem nothing_yet es f (record { nodes = λ j. tt; net = tt }) in
      let good : IsGoodNode x (draw leader) seeds i n = subst (IsGoodStatus i) e (v.nodes i) in
      good.has_key r
