-- ===== src/App.antt =====
-- app/: the console application.
pub mod Options
pub mod InputParser
pub mod EventQueue
pub mod LogWorker
pub mod Usage
pub mod ConsoleApp
pub mod Main
pub mod Tests
