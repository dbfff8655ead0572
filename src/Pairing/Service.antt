-- ===== src/Pairing/Service.antt =====
-- The handlers of backend/internal/pairing/service.go. A handler that talks to the peer between two
-- critical sections is two functions, one for each, and their composition: other handlers may run
-- in between.
pub mod Exchange
pub mod Begin
pub mod Receive
pub mod Confirm
pub mod Manage
