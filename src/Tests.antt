-- ===== src/Tests.antt =====
-- The theorems at concrete inputs.
mod Data
mod QueueCodec
mod StagingRuns
mod StorageRuns
mod DatabaseRuns
mod ServiceRuns
mod AppRuns
mod BucketRuns
mod KeyRuns
mod ReportRuns
