-- ===== src/Delegate.antt =====
-- `DelegateService` of internal/core/application/delegate_service.go, and the handler of a batch session
-- of internal/core/application/delegate_batch_handler.go: the state that they share and what each
-- call does to it. The repository is the interface of internal/core/domain/delegate.go.
pub mod Forfeit
pub mod Request
pub mod Batch
pub mod Address
pub mod Spent
pub mod Service
pub mod Session
pub mod Tests
