-- ===== src/Tests.antt =====
-- Concrete runs that meet the hypotheses of the theorems.
mod Scenario
mod Enumeration
mod Table
mod Owners
mod Rest
mod Report
mod Closing
mod Session
mod Texts
mod Files
mod Tables
mod Runs
