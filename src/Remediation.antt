-- ===== src/Remediation.antt =====
-- app/internal/plugin/remediation.go and app/internal/remediation: which findings may be repaired, and
-- by which operation.
pub mod Metadata
pub mod Registry
pub mod Reviewed
