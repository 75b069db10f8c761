-- ===== src/Authorization.antt =====
-- internal/authorization: who may do what on which resource.
pub mod Domain
pub mod Conditions
pub mod Registry
pub mod Authorizer
pub mod Names
pub mod Grants
pub mod RoleBindings
pub mod Store
pub mod Projector
