-- ===== src/Cluster/Lifecycle/Telling.antt =====
-- What the listener of a node hears of the states that the node goes through.
use mathlib.Core.List.{append-nil, append_assoc}
use mathlib.Core.Path.{fun_ext}
use betterkey.Prelude.{
  ℕ, ◌≤◌, ◌≡◌, refl, ap, sym, subst, ◌∙◌, inl, inr, Bool, true, false, List, [], ◌∷◌, ◌++◌, arith,
  length, ◌==◌, if◌then◌else◌,
}
use betterkey.Common.Model.{Platform}
use betterkey.Common.Result.{Result, ok, err, panic, ◌>>=◌, >>=-eq-ok, ok-injective, Post-ok}
use betterkey.Cluster.Message.{node_state_ready}
use betterkey.Cluster.Bootstrap.{
  NodeStateListener, new_listener, on_state_changed, on_states, gets_ready, on_states-released,
  released,
}
use betterkey.Cluster.Node.{Node, Config, new_node, start}
use betterkey.Cluster.Lifecycle.{
  Process, tell, notify_state_change, Act, Reach, starts, acts, tells,
}
use betterkey.Cluster.Lifecycle.Moves.{start-Moved}
use betterkey.Cluster.Lifecycle.History.{
  IsHistory, length-IsHistory, gets_ready-IsHistory, IsHistory-Moved, Act-Moved,
}

-- What has been told and what is left to tell are the history of the node, and the listener has heard
-- what has been told.
pub record IsTold (p : Process) : Type 0 where
  pub told : List ℕ
  pub history : IsHistory 0 (told ++ p.node.state_change_messages) p.node.state
  pub heard : on_states told new_listener ≡ ok p.listener

bind-ok : (r : Result NodeStateListener) → (r >>= λ m. ok m) ≡ r
bind-ok panic = refl
bind-ok (err e) = refl
bind-ok (ok m) = refl

bind_assoc :
    (r : Result NodeStateListener) (f g : NodeStateListener → Result NodeStateListener)
    → (r >>= λ m. f m >>= g) ≡ ((r >>= f) >>= g)
bind_assoc panic f g = refl
bind_assoc (err e) f g = refl
bind_assoc (ok m) f g = refl

on_states_snoc :
    (ss : List ℕ) (s : ℕ) (n : NodeStateListener)
    → on_states (ss ++ s ∷ []) n ≡ (on_states ss n >>= on_state_changed s)
on_states_snoc [] s n = bind-ok (on_state_changed s n)
on_states_snoc (t ∷ ss) s n =
    ap (λ f. on_state_changed t n >>= f) (fun_ext (λ m. on_states_snoc ss s m))
    ∙ bind_assoc (on_state_changed t n) (on_states ss) (on_state_changed s)

tell-IsTold :
    (queue : List ℕ) (p p' : Process)
    → p.node.state_change_messages ≡ queue
    → tell queue p ≡ ok p'
    → IsTold p
    → IsTold p'
unfolding tell
tell-IsTold [] p p' q e v = subst IsTold (ok-injective e) v
tell-IsTold (s ∷ rest) p p' q e v =
    let (l, heard, done) = >>=-eq-ok (on_state_changed s p.listener) _ e in
    subst IsTold (ok-injective done) (record {
      told = v.told ++ s ∷ [];
      history =
          subst (λ t. IsHistory 0 t p.node.state) (sym (append_assoc v.told (s ∷ []) rest))
            (subst (λ t. IsHistory 0 (v.told ++ t) p.node.state) q v.history);
      heard = on_states_snoc v.told s new_listener ∙ rw v.heard heard;
    })

start-IsTold :
    (x : Platform) (c : Config) (now : ℕ) (n : Node)
    → start x (new_node c now) ≡ ok n
    → IsTold (record { node = n; listener = new_listener })
unfolding new_node
start-IsTold x c now n e = record {
  told = [];
  history =
      IsHistory-Moved [] (new_node c now) n (Post-ok _ _ (start-Moved x (new_node c now) refl) e)
        refl;
  heard = refl;
}

Reach-IsTold : (x : Platform) (c : Config) (now : ℕ) (p : Process) → Reach x c now p → IsTold p
unfolding notify_state_change
Reach-IsTold x c now p (starts n e) = start-IsTold x c now n e
Reach-IsTold x c now p (acts q n r a) =
    let v = Reach-IsTold x c now q r in
    record {
      told = v.told;
      history = IsHistory-Moved v.told q.node n (Act-Moved x q.node n a) v.history;
      heard = v.heard;
    }
Reach-IsTold x c now p (tells q q' r e) =
    tell-IsTold q.node.state_change_messages q q' refl e (Reach-IsTold x c now q r)

then-ok :
    (r : Result NodeStateListener) (l : NodeStateListener) (f : NodeStateListener → Process)
    → r ≡ ok l
    → (p : Process) × ((r >>= λ m. ok (f m)) ≡ ok p)
then-ok r l f e = (f l, rw e refl)

tell-total : (queue : List ℕ) (p : Process) → IsTold p → (p' : Process) × (tell queue p ≡ ok p')
unfolding tell
tell-total [] p v = (p, refl)
tell-total (s ∷ rest) p v =
    let next : on_state_changed s p.listener ≡ on_states (v.told ++ s ∷ []) new_listener =
      sym (on_states_snoc v.told s new_listener ∙ rw v.heard refl) in
    then-ok (on_state_changed s p.listener) _ _ (next ∙ on_states-released (v.told ++ s ∷ []))

Act-ready :
    (x : Platform) (n n' : Node)
    → Act x n n'
    → n.state ≡ node_state_ready
    → n'.state ≡ node_state_ready
Act-ready x n n' a e = elim (Act-Moved x n n' a) [
  | inl (s, q) ↦ s ∙ e
  | inr (may, q) ↦ absurd (ground (arith, e, may))
]

-- A process whose node has gone through states that may follow one another, from the one that it was
-- made in: at most three changes. Its listener has been told of a first part of them, has let the
-- bootstrap go on exactly where READY is in that part, and can be told of the next one. No act takes a
-- node that is READY out of this state.
pub record IsOrderly (x : Platform) (p : Process) : Type 0 where
  pub told : List ℕ
  pub history : IsHistory 0 (told ++ p.node.state_change_messages) p.node.state
  pub few : length (told ++ p.node.state_change_messages) ≤ 3
  pub heard : p.listener ≡ released (gets_ready told)
  pub next : Process
  pub tells_next : notify_state_change p ≡ ok next
  pub stays_ready :
      (n : Node) → Act x p.node n → p.node.state ≡ node_state_ready → n.state ≡ node_state_ready

-- From `Start` on, whatever the goroutines, the peers and the memberlist do, a node goes through states
-- that may follow one another, from the one that it was made in to the one that it is in, and never out
-- of READY. They are at most three, so that the channel of 1024 never fills. What the listener has been
-- told of is a first part of them, in order, the wait of the bootstrap is over exactly where READY is in
-- that part, and telling the listener never panics.
pub Reach-IsOrderly :
    (x : Platform) (c : Config) (now : ℕ) (p : Process) → Reach x c now p → IsOrderly x p
unfolding notify_state_change
Reach-IsOrderly x c now p r =
    let v = Reach-IsTold x c now p r in
    let changes : List ℕ = v.told ++ p.node.state_change_messages in
    let (p', tells_p') = tell-total p.node.state_change_messages p v in
    record {
      told = v.told;
      history = v.history;
      few = omega (arith, length-IsHistory 0 changes p.node.state v.history);
      heard = ok-injective (sym v.heard ∙ on_states-released v.told);
      next = p';
      tells_next = tells_p';
      stays_ready = λ n a e. Act-ready x p.node n a e;
    }

is_released :
    (b : Bool) → ((released b).is_done ≡ b) × ((released b).countdown ≡ (if b then 0 else 1))
is_released true = (refl, refl)
is_released false = (refl, refl)

-- Once all has been told, the bootstrap goes on to the web server exactly where the node is READY.
pub told_all-released :
    (x : Platform) (c : Config) (now : ℕ) (p : Process)
    → Reach x c now p
    → p.node.state_change_messages ≡ []
    → (p.listener.is_done ≡ (p.node.state == node_state_ready))
      × (p.listener.countdown ≡ (if p.node.state == node_state_ready then 0 else 1))
told_all-released x c now p r e =
    let v = Reach-IsTold x c now p r in
    let history : IsHistory 0 v.told p.node.state =
      subst (λ t. IsHistory 0 t p.node.state) (append-nil v.told)
        (subst (λ t. IsHistory 0 (v.told ++ t) p.node.state) e v.history) in
    let same_test = gets_ready-IsHistory 0 v.told p.node.state refl history in
    let listener = ok-injective (sym v.heard ∙ on_states-released v.told) in
    rw (listener, same_test) (is_released (p.node.state == node_state_ready))
