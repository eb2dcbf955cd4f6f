-- ===== src/Domain.antt =====
-- internal/domain: media, their converted variants, and jobs. Times are nanoseconds, widths, sizes
-- and frame rates are natural numbers, and strings that only name things are compared whole.
pub mod Errors
pub mod Probe
pub mod Variants
pub mod Accept
pub mod Extensions
pub mod Negotiation
mod Tests
use sharm.Common.{ℕ, ℤ, Option, List, Text, text}

pub data MediaType : Type 0 where
  video audio image : MediaType

pub data MediaStatus : Type 0 where
  pending processing done failed : MediaStatus

pub data VariantStatus : Type 0 where
  pending processing done failed : VariantStatus

pub data JobType : Type 0 where
  convert thumbnail probe : JobType
  unknown : Text → JobType

pub data JobStatus : Type 0 where
  pending running done failed : JobStatus

-- A codec is a string; the empty one means that a job names none.
abbrev pub Codec : Type 0
Codec = Text

abbrev pub av1 : Codec
av1 = text "av1"

abbrev pub h264 : Codec
h264 = text "h264"

abbrev pub opus : Codec
opus = text "opus"

pub record Variant : Type 0 where
  pub id : ℕ
  pub media_id : Text
  pub codec : Codec
  pub path : Text
  pub file_size : ℕ
  pub width : ℕ
  pub height : ℕ
  pub status : VariantStatus
  pub error_message : Text
  pub created_at : ℕ

pub record Media : Type 0 where
  pub id : Text
  pub type : MediaType
  pub original_name : Text
  pub original_path : Text
  pub converted_path : Text
  pub status : MediaStatus
  pub codec : Codec
  pub error_message : Text
  pub retention_days : ℤ
  pub file_size : ℕ
  pub width : ℕ
  pub height : ℕ
  pub thumb_path : Text
  pub created_at : ℕ
  pub expires_at : ℕ
  pub variants : List Variant
  pub probe_json : Text

pub record Job : Type 0 where
  pub id : ℕ
  pub media_id : Text
  pub type : JobType
  pub codec : Codec
  pub fps : ℤ
  pub status : JobStatus
  pub error_message : Text
  pub attempts : ℕ
  pub created_at : ℕ
  pub started_at : Option ℕ
  pub completed_at : Option ℕ

pub record User : Type 0 where
  pub id : ℕ
  pub username : Text
  pub password_hash : Text
  pub created_at : ℕ
  pub updated_at : ℕ
