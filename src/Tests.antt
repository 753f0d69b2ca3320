-- ===== src/Tests.antt =====
-- Concrete runs of the models, and the theorems at inputs that meet their hypotheses.
mod Data
mod AccountRuns
mod JobRuns
mod HistoryRuns
mod UploadRuns
mod OrderRuns
mod AcmeRuns
mod DeployRuns
mod VaultRuns
mod ConfigRuns
mod ToolbeltRuns
