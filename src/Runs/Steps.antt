-- ===== src/Runs/Steps.antt =====
-- Every method of the repository that writes a run changes the table of runs by a `Change`: claims
-- in `Start`, cancellations in `Cancel`,
-- finalization in `End`, the
-- others in `Hold`.
pub mod Start
pub mod Cancel
pub mod Hold
pub mod End
pub mod Relation
