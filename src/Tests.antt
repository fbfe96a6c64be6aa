-- ===== src/Tests.antt =====
-- A platform for the witnesses, runs of the code on small inputs, and each theorem that has
-- hypotheses at an input that meets them.
pub mod Sample
pub mod FoldRuns
mod FoldCases
pub mod StoreCases
mod AssembleCases
pub mod Board
mod ServerCases
mod ConfigCases
mod Re2Cases
mod ProcessCases
mod PipelineCases
mod SourcesCases
mod QuietCases
mod RunCases
