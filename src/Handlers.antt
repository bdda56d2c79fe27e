-- ===== src/Handlers.antt =====
-- internal/interface/grpc/handlers: what the handlers of the API do beyond the conversion of messages.
pub mod SendRecovery
pub mod ListDelegates
pub mod Tests
