-- ===== src/Store.antt =====
-- internal/adapter/storage/sqlite: the tables of the database, as the migrations declare them, and
-- the statements of queries/*.sql on them.
pub mod Rows
pub mod Jobs
pub mod Media
pub mod Variants
pub mod Users
pub mod Integrity
mod Tests
use sharm.Common.{ℕ, ℤ, Bool, Option, none, some, List, [], ◌∷◌, Text, if◌then◌else◌}
use sharm.Domain.{MediaType, MediaStatus, Codec, Variant, Job, User}

-- A row of `media`.
pub record Medium : Type 0 where
  pub id : Text
  pub type : MediaType
  pub original_name : Text
  pub original_path : Text
  pub converted_path : Text
  pub status : MediaStatus
  pub codec : Codec
  pub error_message : Text
  pub retention_days : ℤ
  pub file_size : ℕ
  pub width : ℕ
  pub height : ℕ
  pub thumb_path : Text
  pub created_at : ℕ
  pub expires_at : ℕ
  pub probe_json : Text

-- The tables, and the next values of the AUTOINCREMENT keys.
pub record Db : Type 0 where
  pub media : List Medium
  pub variants : List Variant
  pub jobs : List Job
  pub users : List User
  pub next_variant : ℕ
  pub next_job : ℕ
  pub next_user : ℕ

abbrev pub empty_db : Db
empty_db = record {
  media = [];
  variants = [];
  jobs = [];
  users = [];
  next_variant = 1;
  next_job = 1;
  next_user = 1;
}

module _ {A : Type 0} (test : A → Bool) where
  -- SELECT … WHERE test LIMIT 1
  unfoldable pub select_one : List A → Option A
  select_one [] = none
  select_one (r ∷ rs) = if test r then some r else select_one rs

  -- SELECT … WHERE test
  unfoldable pub select : List A → List A
  select [] = []
  select (r ∷ rs) = let rest = select rs in if test r then r ∷ rest else rest

  -- UPDATE … SET … WHERE test
  unfoldable pub update_where : (A → A) → List A → List A
  update_where set [] = []
  update_where set (r ∷ rs) = (if test r then set r else r) ∷ update_where set rs

  -- DELETE FROM … WHERE test
  unfoldable pub delete_where : List A → List A
  delete_where [] = []
  delete_where (r ∷ rs) = let rest = delete_where rs in if test r then rest else r ∷ rest

-- ORDER BY key ASC, rows with one key in the order of the table.
module _ {A : Type 0} (before : A → A → Bool) where
  unfoldable pub insert_row : A → List A → List A
  insert_row r [] = r ∷ []
  insert_row r (s ∷ ss) = let rest = insert_row r ss in if before s r then s ∷ rest else r ∷ s ∷ ss

  unfoldable pub order_by : List A → List A
  unfolding insert_row
  order_by [] = []
  order_by (r ∷ rs) = insert_row r (order_by rs)
