-- ===== src/Domain.antt =====
-- internal/accounts/domain: the User aggregate, its value objects and its events.
pub mod Std
pub mod Email
pub mod DisplayName
pub mod User
