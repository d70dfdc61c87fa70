-- ===== src/User/Service.antt =====
-- internal/domain/user/domain.go: the user service. The id of a new object, the salt of a hash, the time,
-- and the text of a token (32 random bytes in hex, or the error of the random source) are arguments.
pub mod Accounts
pub mod Registration
pub mod Admin
