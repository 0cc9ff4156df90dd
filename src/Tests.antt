-- ===== src/Tests.antt =====
-- Concrete runs of the models, at which the theorems are applied.
mod Queue
mod Sync
mod Relink
mod Worker
mod Timebase
