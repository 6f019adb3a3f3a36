-- ===== src/Cluster/Lifecycle/History.antt =====
-- The states that a node goes through, one after the other.
use mathlib.Core.List.{append_assoc}
use betterkey.Prelude.{
  ℕ, suc, ◌+◌, ◌≤◌, ◌≡◌, refl, sym, subst, ◌∙◌, inl, inr, true, false, List, [], ◌∷◌, ◌++◌, arith,
  length, Bool-cases, ltb, ◌==◌, if◌then◌else◌,
}
use betterkey.Common.Model.{Platform}
use betterkey.Common.Result.{Post-ok}
use betterkey.Cluster.Message.{node_state_no_key, node_state_ready}
use betterkey.Cluster.Bootstrap.{gets_ready}
use betterkey.Cluster.Node.{Node}
use betterkey.Cluster.Lifecycle.{
  Act, is_told, merges, is_asked, handles, looks_for_key, waits_to_validate, runs, ticks,
}
use betterkey.Cluster.Lifecycle.Moves.{may_follow, Kept, Moved, node_status-Kept, loop_round-Moved}
use betterkey.Cluster.Lifecycle.Rounds.{
  notify_msg-Moved, merge_remote_state-Moved, on_no_key_round-Moved, validating_round-Kept,
  run_task-Kept,
}

-- Each state may follow the one before it, from the first to the last.
abbrev pub IsHistory : ℕ → List ℕ → ℕ → Type 0
IsHistory old [] new = old ≡ new
IsHistory old (s ∷ ss) new = (may_follow old s ≡ true) × IsHistory s ss new

-- Every change of state leads nearer to READY.
abbrev pub steps_left : ℕ → ℕ
steps_left s =
    if s == 0
    then 3
    else if s == node_state_no_key
    then 2
    else if ltb s node_state_ready
    then 1
    else 0

steps_left-may_follow :
    (old new : ℕ) → may_follow old new ≡ true → suc (steps_left new) ≤ steps_left old
steps_left-may_follow old new h = ground arith

pub length-IsHistory :
    (old : ℕ) (ss : List ℕ) (new : ℕ)
    → IsHistory old ss new
    → length ss + steps_left new ≤ steps_left old
length-IsHistory old [] new h = rw h (omega arith)
length-IsHistory old (s ∷ ss) new (may, h) =
    omega (arith, steps_left-may_follow old s may, length-IsHistory s ss new h)

IsHistory-snoc :
    (old : ℕ) (ss : List ℕ) (last new : ℕ)
    → IsHistory old ss last
    → may_follow last new ≡ true
    → IsHistory old (ss ++ new ∷ []) new
IsHistory-snoc old [] last new h may = (subst (λ t. may_follow t new ≡ true) (sym h) may, refl)
IsHistory-snoc old (s ∷ ss) last new (m, h) may = (m, IsHistory-snoc s ss last new h may)

-- READY is entered at most once, and last.
ready_is_last :
    (s : ℕ) (ss : List ℕ) (new : ℕ)
    → s ≡ node_state_ready
    → IsHistory s ss new
    → (new == node_state_ready) ≡ true
ready_is_last s [] new e h = subst (λ t. (t == node_state_ready) ≡ true) (sym e ∙ h) refl
ready_is_last s (t ∷ ts) new e (may, h) = absurd (ground (arith, e))

pub gets_ready-IsHistory :
    (old : ℕ) (ss : List ℕ) (new : ℕ)
    → (old == node_state_ready) ≡ false
    → IsHistory old ss new
    → gets_ready ss ≡ (new == node_state_ready)
gets_ready-IsHistory old [] new e h = subst (λ t. false ≡ (t == node_state_ready)) h (sym e)
gets_ready-IsHistory old (s ∷ ss) new e (may, h) = elim (Bool-cases (s == node_state_ready)) [
  | inl r ↦ rw r (sym (ready_is_last s ss new (ground (arith, r)) h))
  | inr r ↦ rw r (gets_ready-IsHistory s ss new r h)
]

pub Act-Moved : (x : Platform) (n n' : Node) → Act x n n' → Moved n n'
Act-Moved x n n' (is_told p e) = Post-ok (Moved n) _ (notify_msg-Moved p n) e
Act-Moved x n n' (merges m now e) = Post-ok (Moved n) _ (merge_remote_state-Moved m now n) e
Act-Moved x n n' (is_asked w m e) = inl (Post-ok _ _ (node_status-Kept x w n) e).0
Act-Moved x n n' (handles w e) = Post-ok (Moved n) _ (loop_round-Moved x w n) e
Act-Moved x n n' (looks_for_key w s e) = Post-ok (Moved n) _ (on_no_key_round-Moved w n s) e
Act-Moved x n n' (waits_to_validate w s e) = inl (subst (Kept n) e (validating_round-Kept w n))
Act-Moved x n n' (runs w k t got e) = inl (subst (Kept n) e (run_task-Kept w t _))
Act-Moved x n n' (ticks m e) = inl (subst (Kept n) e (refl, refl))

pub IsHistory-Moved :
    (told : List ℕ) (n n' : Node)
    → Moved n n'
    → IsHistory 0 (told ++ n.state_change_messages) n.state
    → IsHistory 0 (told ++ n'.state_change_messages) n'.state
IsHistory-Moved told n n' (inl (s, q)) h = rw (s, q) h
IsHistory-Moved told n n' (inr (may, q)) h = rw q (
    subst (λ t. IsHistory 0 t n'.state) (append_assoc told n.state_change_messages (n'.state ∷ []))
      (IsHistory-snoc 0 (told ++ n.state_change_messages) n.state n'.state h may))
