-- ===== src/Cli.antt =====
-- What the commands of the command line client share: their errors, the files that they keep, the
-- validators of their arguments, and the guards that they begin with.
pub mod Errors
pub mod Effects
pub mod Store
pub mod Validators
pub mod Options
pub mod Argv
pub mod Guards
pub mod Hoare
pub mod Triples
