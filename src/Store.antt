-- ===== src/Store.antt =====
-- internal/store: persistence. The asynchronous writer is modelled, the SQL is not.
pub mod Writer
