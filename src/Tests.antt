-- ===== src/Tests.antt =====
-- The definitions on concrete inputs, and the theorems applied to them.
mod Data
mod Parsing
mod Features
mod Tables
mod Searches
mod Limits
mod Crypto
mod Sessions
mod Settings
mod Requests
mod Ingests
