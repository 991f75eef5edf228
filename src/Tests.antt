-- ===== src/Tests.antt =====
-- Runs of the model on small inputs, and each result at an input that meets its conditions.
mod ValueRuns
mod TableRuns
mod StringRuns
mod ChunkRuns
mod GcRuns
mod ScannerRuns
mod CompilerRuns
mod VmRuns
mod ParserRuns
mod DebugRuns
