-- ===== src/Examples.antt =====
-- Concrete inputs: tests of the definitions, and the theorems at inputs that meet their hypotheses.
mod Input
mod Policy
mod Verbatim
mod Memory
mod Control
mod Config
mod Bootstrap
mod Github
mod Schema
mod Opening
mod Probes
mod Commands
mod Tables
mod Sqlite
