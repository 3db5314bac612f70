-- ===== src/Blob.antt =====
-- src/volume/blob.rs: the store of a volume. Its segment files are their bytes by their number, which
-- their names are made of; the clock is read by the caller and handed in. What of a segment is
-- synced is not followed.
pub mod Format
pub mod Store
pub mod RoundTrip
pub mod Regions
pub mod Keys
pub mod Removal
pub mod Writes
pub mod Spec
pub mod Abstract
pub mod Puts
pub mod Refinement
pub mod Restore
pub mod Scan
pub mod Open
pub mod Scanned
pub mod Found
pub mod Reopened
pub mod Returns
pub mod Endless
pub mod Saved
mod Tests
mod OpenTests
