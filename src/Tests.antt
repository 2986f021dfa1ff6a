-- ===== src/Tests.antt =====
-- Tests of the definitions on small inputs, and each property at a concrete input.
mod Strings
mod Job
mod Queue
mod Storage
mod Http
mod Db
mod Worker
mod Config
mod Service
