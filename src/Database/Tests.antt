-- ===== src/Database/Tests.antt =====
-- The database functions on concrete answers.
mod Table
