-- ===== src/Tests.antt =====
-- The theorems on concrete inputs, and runs of the modelled code.
mod Server
mod Jobs
mod Quota
mod Members
mod Gateway
mod Records
mod Evaluations
mod Agents
mod Cases
mod Calls
mod Datasets
