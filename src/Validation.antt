-- ===== src/Validation.antt =====
-- src/esaa/validator.py: the checks on what an agent hands in. `jsonschema` and `fnmatch` are
-- parameters; a dictionary from the contract's YAML file is a record.
mod Limits
mod Outputs
pub use Limits.{FileUpdate, ResourceLimits}
unfoldable pub use Limits.*
pub use Outputs.{ActivityEvent, AgentOutput, Boundaries, Contract}
unfoldable pub use Outputs.*
pub mod Resources
pub mod Admission
mod Samples
