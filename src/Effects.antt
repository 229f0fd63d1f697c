-- ===== src/Effects.antt =====
-- src/esaa/file_effects.py: the files that an output changes are staged, and then moved to their
-- places or thrown away; artifacts hold their contents. A disk is a dictionary from paths to texts;
-- directories and links are left out, and a path is the text that
-- `pathlib` makes of it, where `..` stays.
mod Staging
mod Artifacts
mod Recovery
pub use Staging.{Disk, Update, Staged, Moved}
unfoldable pub use Staging.*
pub use Artifacts.{Metadata, Artifact, Archive}
unfoldable pub use Artifacts.*
pub use Recovery.{Settled, Recovered}
unfoldable pub use Recovery.*
pub mod Moves
pub mod Latest
pub mod Verified
pub mod Restored
mod Samples
