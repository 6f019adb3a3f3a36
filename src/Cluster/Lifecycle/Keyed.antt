-- ===== src/Cluster/Lifecycle/Keyed.antt =====
-- Whether a node that is READY has a master key, and what the handlers of messages do to that.
use betterkey.Prelude.{
  ◌≡◌, refl, sym, ◌∙◌, inl, inr, Bool, true, false, Option, none, some, Bytes, Bool-cases, same,
  length, ◌==◌, if◌then◌else◌,
}
use betterkey.Common.Hex.{decode_string}
use betterkey.Common.Model.{NodeInfo, Member, MasterSecret, Platform}
use betterkey.Common.Result.{
  Result, ok, err, panic, require, must, Post, Post-bind, Post-then, ◌>>=◌,
}
use betterkey.Common.Services.{deref, member_seal, member_unseal}
use betterkey.Sgx.KeyStore.{
  File, absent, unreadable, holding, MasterKeyStore, load, read, read_through, remember, write,
}
use betterkey.Cluster.Message.{PeerMessage, node_state_ready}
use betterkey.Cluster.Seed.{key_received}
use betterkey.Cluster.Node.{Node, World, set_status, spawn}
use betterkey.Cluster.Node.Handlers.{
  handle_seed_key, handle_query_key, handle_key_challenge_request, handle_key_challenge_response,
  store_key, start_forwarding,
}

abbrev has_key_in : Option Member → File → Bool
has_key_in (some m) file = true
has_key_in none absent = false
has_key_in none unreadable = true
has_key_in none (holding content) = true

-- Whether the store has something to read a key from.
abbrev pub has_key : MasterKeyStore → Bool
has_key ks = has_key_in ks.cached_masterkey ks.file

abbrev pub IsKeyed : Node → Type 0
IsKeyed n = n.state ≡ node_state_ready → has_key n.master_ks ≡ true

abbrev pub is_there : Option Member → Bool
is_there none = false
is_there (some m) = true

-- What `Read` gives is a member exactly where the store has a key, and leaves it there.
abbrev pub Reads : MasterKeyStore → MasterKeyStore × Option Member → Type 0
Reads ks r = (is_there r.1 ≡ has_key ks) × (r.0.cached_masterkey ≡ r.1) × (has_key r.0 ≡ has_key ks)

abbrev store : File → NodeInfo → Option Member → Bool → MasterKeyStore
store file info cached has_sgx = record {
  file = file;
  configured_node_id = info;
  cached_masterkey = cached;
  has_sgx = has_sgx;
}

module _ (x : Platform) where
  found-Reads :
      (file : File) (info : NodeInfo) (has_sgx : Bool) (loaded : Result Member)
      → has_key_in none file ≡ true
      → Post (Reads (store file info none has_sgx)) (
          (loaded >>= λ m. ok (some m)) >>= λ found.
          ok (remember (store file info none has_sgx) found))
  unfolding remember
  found-Reads file info has_sgx panic e = tt
  found-Reads file info has_sgx (err f) e = tt
  found-Reads file info has_sgx (ok m) e = (sym e, refl, sym e)

  read_through-Reads :
      (file : File) (info : NodeInfo) (cached : Option Member) (has_sgx : Bool)
      → Post
          (Reads (store file info cached has_sgx))
          (read_through x cached (store file info cached has_sgx))
  unfolding read_through load remember
  read_through-Reads file info (some m) has_sgx = (refl, refl, refl)
  read_through-Reads absent info none has_sgx = (refl, refl, refl)
  read_through-Reads unreadable info none has_sgx = found-Reads unreadable info has_sgx _ refl
  read_through-Reads (holding content) info none has_sgx =
      found-Reads (holding content) info has_sgx _ refl

  pub read-Reads : (ks : MasterKeyStore) → Post (Reads ks) (read x ks)
  unfolding read
  read-Reads ks = read_through-Reads ks.file ks.configured_node_id ks.cached_masterkey ks.has_sgx

  write-has_key :
      (ks : MasterKeyStore) (secret : MasterSecret) (draw : Bytes) (written : Bool)
      → Post (λ ks'. has_key ks' ≡ true) (write x ks secret draw written)
  unfolding write
  write-has_key ks secret draw written = Post-then _ (deref (x.marshal_member _)) _ (λ json.
      Post-then _ (if ks.has_sgx then deref (x.seal_with_product_key draw json) else ok json) _
        (λ sealed. on_disk written sealed ks.cached_masterkey))
    where
      on_disk :
          (written : Bool) (sealed : Bytes) (cached : Option Member)
          → Post
              (λ ks'. has_key ks' ≡ true)
              (if written
                then ok (store (holding sealed) ks.configured_node_id cached ks.has_sgx)
                else panic)
      on_disk false sealed cached = tt
      on_disk true sealed none = refl
      on_disk true sealed (some m) = refl

  -- Behind a `Read`, in a node that is left as it was.
  pub reads-IsKeyed :
      (n : Node) (f : MasterKeyStore × Option Member → Result Node)
      → IsKeyed n
      → ((r : MasterKeyStore × Option Member)
          → (n.state ≡ node_state_ready → has_key r.0 ≡ true)
          → (is_there r.1 ≡ true → has_key r.0 ≡ true)
          → Post IsKeyed (f r))
      → Post IsKeyed (read x n.master_ks >>= f)
  reads-IsKeyed n f keyed rest =
      Post-bind (Reads n.master_ks) IsKeyed (read x n.master_ks) f (read-Reads n.master_ks)
        (λ r (there, cached, same_key).
          rest r (λ ready. same_key ∙ keyed ready) (λ h. same_key ∙ sym there ∙ h))

  start_forwarding-IsKeyed :
      (o : Option PeerMessage) (n : Node) → IsKeyed n → IsKeyed (start_forwarding o n)
  unfolding start_forwarding spawn
  start_forwarding-IsKeyed none n keyed = keyed
  start_forwarding-IsKeyed (some pm) n keyed = keyed

  pub handle_query_key-IsKeyed :
      (p : PeerMessage) (n : Node) → IsKeyed n → Post IsKeyed (handle_query_key x p n)
  unfolding handle_query_key spawn
  handle_query_key-IsKeyed p n keyed = reads-IsKeyed n _ keyed (λ r ready there.
      Post-then _ (deref r.1) _ (λ m. Post-then _ (deref m.master_secret) _ (λ s.
        Post-then _ (deref (decode_string s.secret)) _
          (λ c. Post-then _ (deref p.sender) _ (λ sender. ready)))))

  pub handle_key_challenge_request-IsKeyed :
      (w : World) (p : PeerMessage) (n : Node)
      → IsKeyed n
      → Post IsKeyed (handle_key_challenge_request x w p n)
  unfolding handle_key_challenge_request spawn
  handle_key_challenge_request-IsKeyed w p n keyed = reads-IsKeyed n _ keyed (λ r ready there.
      Post-then _ (deref r.1) _ (λ m.
        Post-then _ (must (member_seal x m w.seal_draw p.content)) _
          (λ enc. Post-then _ (deref p.sender) _ (λ sender. ready))))

  pub handle_key_challenge_response-IsKeyed :
      (p : PeerMessage) (n : Node) → IsKeyed n → Post IsKeyed (handle_key_challenge_response x p n)
  unfolding handle_key_challenge_response set_status
  handle_key_challenge_response-IsKeyed p n keyed = reads-IsKeyed n _ keyed (λ r ready there.
      Post-bind _ _ (deref r.1) _ (deref-there r.1) (λ m found.
        Post-then _ (must (member_unseal x m p.content)) _ (λ dec.
          Post-then _ (deref m.node_info) _
            (λ info. Post-then _ (require (same dec info.id)) _ (λ u. λ state. there found)))))
    where
      deref-there : (o : Option Member) → Post (λ m. is_there o ≡ true) (deref o)
      deref-there none = tt
      deref-there (some m) = refl

  pub store_key-IsKeyed : (w : World) (k : Bytes) (n : Node) → Post IsKeyed (store_key x w k n)
  unfolding store_key set_status
  store_key-IsKeyed w k n =
      Post-bind _ _ (write x n.master_ks _ w.file_draw w.written) _ (write-has_key _ _ _ _)
        (λ ks has state. has)

  pub handle_seed_key-IsKeyed :
      (w : World) (msg : PeerMessage) (n : Node)
      → IsKeyed n
      → Post IsKeyed (handle_seed_key x w msg n)
  unfolding handle_seed_key
  handle_seed_key-IsKeyed w msg n keyed = Post-then _ (deref msg.sender) _ (λ sender.
      Post-then _ (key_received msg.content sender.id n.seed) _ (λ r.
        returned_key r.returned _
          (start_forwarding-IsKeyed r.forwards (record n { seed = r.seed }) keyed)))
    where
      returned_key :
          (k : Bytes) (m : Node)
          → IsKeyed m
          → Post IsKeyed (if length k == 0 then ok m else store_key x w k m)
      returned_key k m h = elim (Bool-cases (length k == 0)) [
        | inl z ↦ rw z h
        | inr z ↦ rw z (store_key-IsKeyed w k m)
      ]
