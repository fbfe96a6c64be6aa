-- ===== src/Assemble.antt =====
-- board/assemble: the trains, gates and dispatches surfaces, and the presentational vocabularies.
pub mod Types
pub mod Wire
pub mod Manifest
pub mod Joining
pub mod Build
pub mod Expected
pub mod Members
pub mod Trains
pub mod Collisions
pub mod Claimed
pub mod Surfaces
pub mod Keys
pub mod BoardDefs
pub mod Winners
pub mod Chosen
