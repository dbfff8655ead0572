-- ===== src/Pairing/Trust.antt =====
-- Why a device is trusted (backend/internal/pairing/service.go): the justification that the service
-- keeps for its sessions and for its table, and that every critical section preserves.
pub mod Justified
pub mod Handlers
pub mod Opening
pub mod Answers
pub mod Managing
pub mod Refreshing
pub mod Origin
