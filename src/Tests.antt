-- ===== src/Tests.antt =====
-- Runs of the code on small inputs, among them the cases of tests/core_test.cpp, and the theorems
-- at such inputs.
mod Fixtures
mod Engine
mod Witnesses
mod SessionWitnesses
mod BootWitness
mod WaitingWitness
mod LocksWitness
mod PostgresWitnesses
mod ClientWitnesses
mod RunWitness
mod PostgresRun
mod Dialogue
