-- ===== src/Cli.antt =====
-- The command line tool (cli/core/).
pub mod Infra
