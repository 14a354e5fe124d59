-- ===== src/Printer.antt =====
-- The program under Printer/: a spooler.
pub mod Jobs
pub mod Words
pub mod Types
pub mod Printers
pub mod Spool
pub mod Process
pub mod Console
pub mod Invariant
pub mod Session
pub mod Tests
