-- ===== src/Models.antt =====
-- app/models: the status enumerations, and the rows of the tables that the services read and write.
pub mod Enums
pub mod Rows
pub use Enums.*
pub use Rows.*
