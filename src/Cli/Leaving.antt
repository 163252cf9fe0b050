-- ===== src/Cli/Leaving.antt =====
-- How a session is left.
