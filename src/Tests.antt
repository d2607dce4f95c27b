-- ===== src/Tests.antt =====
-- Tests on concrete inputs, and the instances of the theorems.
mod Hashing
mod Mining
mod Building
mod Session
mod Network
mod Hosts
mod Requests
