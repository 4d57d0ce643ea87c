-- ===== src/Domain.antt =====
-- src/goalrouter/domain.py.
pub mod Platform
pub mod Json
pub mod FilePath
pub mod Fields
pub mod Enums
pub mod Encoding
pub mod InstructionFile
pub mod Objective
pub mod RepositoryContext
pub mod WorkItem
pub mod RouteDecision
pub mod WorkResult
pub mod ApprovalRecord
pub mod Policy
pub mod RunState
pub mod RoundTrip
