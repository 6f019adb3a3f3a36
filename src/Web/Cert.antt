-- ===== src/Web/Cert.antt =====
-- internal/web/cert/cert.go. certmagic is the parameter `manages`: whether the attempt of a number,
-- from zero, brings the certificates.
pub mod Retrying
use betterkey.Prelude.{ℕ, zero, suc, ◌+◌, Bool, true, false, List, Bytes, if◌then◌else◌}

pub record AcmeConfig : Type 0 where
  pub domains : List Bytes
  pub dns_token : Bytes
  pub acme_owner : Bytes
  pub acme_provider : Bytes
  pub node_id : Bytes
  pub retry_delay : ℕ
  pub retry_count : ℕ

-- How many attempts are made, how many seconds are waited behind those that fail, and whether the last
-- one brings the certificates.
pub record Managed : Type 0 where
  pub attempts : ℕ
  pub waited : ℕ
  pub managed : Bool

-- The loop of `Setup`, from an attempt on.
unfoldable pub manage : (ℕ → Bool) → ℕ → ℕ → ℕ → Managed
manage manages delay zero attempt = record { attempts = 0; waited = 0; managed = false }
manage manages delay (suc count) attempt =
    let rest = manage manages delay count (suc attempt) in
    if manages attempt then record { attempts = 1; waited = 0; managed = true } else record {
      attempts = suc rest.attempts;
      waited = delay + rest.waited;
      managed = rest.managed;
    }

-- `Setup`. The server goes on either way.
unfoldable pub setup : AcmeConfig → (ℕ → Bool) → Managed
unfolding manage
setup a manages = manage manages a.retry_delay a.retry_count 0
