-- ===== src/Clackctl.antt =====
-- src/bin/clackctl: the pure part of the command line client.
pub mod Text
pub mod Keycodes
pub mod Names
pub mod Parse
pub mod Numbers
pub mod Printed
pub mod Levels
pub mod Bytes
pub mod Commands
pub mod Resolve
mod Examples
pub mod Listings
pub mod Dump
