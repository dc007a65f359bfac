-- ===== src/Tests.antt =====
-- Runs of the model on small inputs, and each theorem at an input that meets its hypotheses.
mod Samples
mod TableRuns
mod CacheRuns
mod TunnelRuns
mod RemoteRuns
mod LoopRuns
mod CmdRuns
mod NodeRuns
mod DeployRuns
mod DirectoryRuns
mod InterestRuns
mod QueryRuns
mod ClientRuns
mod HandlerRuns
mod ServerRuns
mod NetworkRuns
mod SetupRuns
