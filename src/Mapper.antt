-- ===== src/Mapper.antt =====
-- internal/mapper: templates that turn the values of a source into items.
pub mod Functions
pub mod Template
pub mod Identifier
pub mod Apply
pub mod Compile
mod Tests
