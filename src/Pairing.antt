-- ===== src/Pairing.antt =====
-- backend/internal/pairing: authenticated device trust. `Models` are its messages and records,
-- `Crypto` the checks on them, `Store` the SQLite table of trusted devices, `Sessions` the state of
-- the service with the steps that its handlers share, `Service` the handlers and `History` their
-- interleavings; the other modules are proofs.
pub mod Models
pub mod Crypto
pub mod Store
pub mod Sessions
pub mod Service
pub mod History
pub mod Trust
pub mod Agreement
pub mod Access
pub mod Answering
pub mod Rejected
pub mod Timestamps
pub mod Expiry
pub mod Example
mod Tests
