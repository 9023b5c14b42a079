-- ===== src/Tests.antt =====
-- A small host, and runs of the program on it.
mod World
mod Guards
mod Users
mod Roles
mod Permissions
mod Birds
mod Cats
mod Resets
mod Utils
mod Queries
mod Stores
mod Documents
mod Strays
mod Tables
