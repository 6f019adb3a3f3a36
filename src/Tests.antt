-- ===== src/Tests.antt =====
-- Concrete inputs: a platform that meets the laws, and the theorems applied to runs on it.
mod SamplePlatform
mod ClusterRuns
mod StoreRuns
mod NodeRuns
mod WebSamples
mod WebRuns
mod ReportRuns
mod TransportRuns
mod SigningRuns
mod LifecycleRuns
mod RetryRuns
mod TlsRuns
mod StartupRuns
mod EndpointRuns
mod ProgramRuns
mod FlowRuns
