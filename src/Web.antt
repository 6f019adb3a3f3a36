-- ===== src/Web.antt =====
-- The web server of internal/web, which gives keys to machines that attest.
pub mod Reply
pub mod Session
pub mod Attestation
pub mod KeyService
pub mod KeyServer
pub mod SealServer
pub mod CertStorage
pub mod Http
pub mod Cert
pub mod Requests
pub mod Server
pub mod Endpoint
