-- ===== src/Attachments.antt =====
-- crates/aqua-messenger/src/attachments.rs: fetched attachments.
pub mod Name
pub mod Store
mod Safe
mod Disk
mod Cache
mod Tests
use aqua_matrix_connector.Common.{ℕ, some, none, Bool, ◌*◌, not, ltb}

abbrev pub default_max_bytes : ℕ
default_max_bytes = 50 * 1024 * 1024

abbrev pub default_retention_days : ℕ
default_retention_days = 14

pub record AttachmentPolicy : Type 0 where
  pub max_bytes : ℕ
  pub retention_days : ℕ

abbrev pub default_attachments : AttachmentPolicy
default_attachments = record {
  max_bytes = default_max_bytes;
  retention_days = default_retention_days;
}

-- Whether the cap lets this size pass.
unfoldable pub check_size : AttachmentPolicy → ℕ → Bool
check_size p bytes = not (ltb p.max_bytes bytes)
