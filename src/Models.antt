-- ===== src/Models.antt =====
-- app/models: the enums and the tables that the commerce services read and write.
pub mod Enums
pub mod Stock
pub mod Checkout
pub mod Order
pub mod Catalog
pub mod Category
pub mod Audit
