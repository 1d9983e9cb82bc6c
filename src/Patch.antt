-- ===== src/Patch.antt =====
-- The edit of a pursuit: `patch_pursuit` of api/app/routers/write.py, for a caller whose role has
-- been checked. Body is the request, Plan what is checked and resolved before the UPDATE, Effects
-- what happens to the Pwin after it, Handler the endpoint.
pub mod Body
pub mod Plan
pub mod Effects
pub mod Handler
pub mod Dates
pub mod Planned
pub mod Kept
pub mod Columns
pub mod Acyclic
pub mod Stale
pub mod Unmodified
pub mod Refused
mod Tests
pub mod Recorded
pub mod Written
