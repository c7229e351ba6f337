-- ===== src/Tests.antt =====
-- Tests, and examples of the theorems.
mod Model
mod Packets
mod Answers
mod Handles
mod Sockets
mod Starts
mod Loops
mod Texts
mod Systems
