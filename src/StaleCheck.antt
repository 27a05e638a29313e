-- ===== src/StaleCheck.antt =====
-- controllers/codebasebranch/stalecheck: branches that are gone from git are marked as stale or, under
-- the cleanup strategy, deleted. `Action` has the two actions, `Checker` the sweep that applies them.
pub mod Action
pub mod Checker
