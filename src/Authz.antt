-- ===== src/Authz.antt =====
-- internal/authz: who may do what, on which resource.
pub mod Errors
pub mod Action
pub mod Scope
pub mod Principal
pub mod Resource
pub mod Ws
pub mod Deps
pub mod Predicates
pub mod Cells
pub mod Rules
pub mod Decision
pub mod Token
pub mod Mint
pub mod Seed
