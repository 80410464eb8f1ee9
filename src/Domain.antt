-- ===== src/Domain.antt =====
-- libs/domain/src: enums, error codes, and the aggregate status of a post.
pub mod Enums
pub mod Texts
pub mod Json
pub mod Errors
pub mod Result
pub mod Aggregate
