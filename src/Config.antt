-- ===== src/Config.antt =====
-- src/config.c and include/config.h: the configuration file.
pub mod Fields
pub mod Defaults
pub mod Lines
pub mod Values
pub mod Mount
pub mod Keys
pub mod Rules
pub mod Load
pub mod Ranges
pub mod Hot
pub mod Texts
pub mod Preserve
pub mod Bounds
pub mod Sound
pub mod Kept
pub mod Resolved
pub mod Loop
pub mod Entry
pub mod Result
mod Tests
