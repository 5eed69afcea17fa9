-- ===== src/Auth.antt =====
-- internal/auth/service.go: `Login`, `Logout`, `Refresh` and `Reset`, over the tables of users, sessions and
-- password resets (internal/db/gen).
pub mod Store
pub mod Service
pub mod Rotation
mod Examples
