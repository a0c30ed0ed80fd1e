-- ===== src/Menu.antt =====
-- The menu: server/src/services/food.service.ts, server/src/services/category.service.ts and
-- server/src/utils/slug.ts.
pub mod Slug
pub mod Foods
pub mod Categories
pub mod Validity
pub mod Kept
