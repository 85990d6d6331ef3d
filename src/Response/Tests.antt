-- ===== src/Response/Tests.antt =====
-- The templates filled with concrete arguments.
