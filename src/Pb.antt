-- ===== src/Pb.antt =====
-- internal/authz/pb: the helpers behind the HTTP routes and the Discord bot, which ask internal/authz
-- and then read and write the database.
pub mod Ceiling
pub mod Grants
pub mod Keys
