-- ===== src/Runs/Claims.antt =====
-- How a worker gets a run (app/adapters/persistence.py): a new one, or the expired one of an alert.
pub mod Defs
pub mod Reclaim
