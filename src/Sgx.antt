-- ===== src/Sgx.antt =====
-- internal/sgx: the store of the master key, the checks on an enclave's report, and the settings of TLS
-- between nodes.
pub mod KeyStore
pub mod Report
pub mod Tls
