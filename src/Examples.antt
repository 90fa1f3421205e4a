-- ===== src/Examples.antt =====
-- Small inputs on which the theorems are applied and the definitions run.
mod LiteralEngine
mod CountedJson
mod FilterRuns
mod PacketRuns
mod TableRuns
mod ScreenRuns
mod PageRuns
mod AppRuns
