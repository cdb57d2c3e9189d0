-- ===== src/Tests.antt =====
-- Runs of the definitions on concrete inputs, and each theorem at one.
mod Reader
mod Buffers
mod Pages
mod Files
mod Addresses
mod Tables
mod Types
mod Programs
mod Names
mod Records
