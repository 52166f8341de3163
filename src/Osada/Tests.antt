-- ===== src/Osada/Tests.antt =====
-- Examples: a small volume, and the theorems on it.
mod Sample
mod Size
mod Table
mod Names
mod Data
mod Requests
