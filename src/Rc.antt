-- ===== src/Rc.antt =====
-- The cache: the storage engine of rc/source, with its two ways of dividing the memory.
pub mod Store
pub mod Dictionary
pub mod Dynamic
pub mod Buddy
pub mod Engine
pub mod Chain
pub mod Oldest
pub mod Victim
pub mod Tiles
pub mod Steps
pub mod Split
pub mod Halving
