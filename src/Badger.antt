-- ===== src/Badger.antt =====
-- internal/infrastructure/db/badger: the stores that are kept in a badgerhold database.
pub mod Key
pub mod Hold
pub mod Dto
pub mod DelegateRepo
pub mod ScriptRepo
pub mod VhtlcRepo
pub mod Memory
pub mod Tests
