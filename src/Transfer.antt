-- ===== src/Transfer.antt =====
-- backend/internal/transfer: how files are offered, received, sent and staged. `Models` are its records,
-- `Store` the SQLite tables, `Control` the handlers of service.go that move a transfer from state to
-- state, `Requests`, `Offers`, `Receiving`, `Finalizing` and `Dispatch` its other handlers, `Sending` and
-- `Staging` the files of these names.
pub mod Models
pub mod Store
pub mod Paths
pub mod Conflicts
pub mod Chunks
pub mod Clock
pub mod Throttle
pub mod Nonces
pub mod Externals
pub mod Control
pub mod Offers
pub mod Requests
pub mod Dispatch
pub mod Staging
pub mod Sending
pub mod Parts
pub mod Receiving
pub mod Finalizing
pub mod Steps
pub mod Final
pub mod Overtaken
pub mod Mirrors
pub mod Recovery
mod Tests
mod Example
mod ArrivalTests
mod SendingTests
