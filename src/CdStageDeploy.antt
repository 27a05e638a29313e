-- ===== src/CdStageDeploy.antt =====
-- controllers/cdstagedeploy: the queue of deployments to a stage, and the pipeline runs that it
-- starts. The definitions are in `Cluster`, `Queue`, `Process` and `Reconcile`.
pub mod Cluster
pub mod Queue
pub mod Process
pub mod Reconcile
