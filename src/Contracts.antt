-- ===== src/Contracts.antt =====
-- src/handlers/contracts.rs: contracts, their signature slots and their signatures.
pub mod Access
pub mod Sign
pub mod Pages
pub mod Admin
pub mod Accounts
pub mod Sound
pub mod CreateSound
pub mod ChangeSound
pub mod SignSound
pub mod Tampered
pub mod Interleaved
pub mod Covered
pub mod CoveredMoves
pub mod Schedules
pub mod OneEach
pub mod Signed
pub mod Owned
pub mod OwnedKept
mod ScheduleTests
pub mod SignKeeps
pub mod SignEffect
pub mod SlotCounts
pub mod Commit
pub mod Consistent
pub mod SignConsistent
pub mod Once
pub mod Verify
pub mod Overlap
pub mod World
pub mod Tests
mod TamperedTests
mod OverlapTests
pub mod Ready
pub mod Create
mod CreateTests
