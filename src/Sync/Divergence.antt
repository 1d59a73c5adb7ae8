-- ===== src/Sync/Divergence.antt =====
-- The error path that breaks coherence: Submit changes the cached document before AppendOp, and
-- does not undo the change when AppendOp fails.
