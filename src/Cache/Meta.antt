-- ===== src/Cache/Meta.antt =====
-- internal/cache/meta.go: the metadata stored beside an object.
use cadish.Prelude.Int.{ℤ}
use cadish.Prelude.{ℕ, Bool, String, ◌==◌, if◌then◌else◌}

pub record ObjectMeta : Type 0 where
  pub key : String
  pub size : ℤ
  pub content_type : String
  pub etag : String
  pub last_modified : String
  pub content_encoding : String
  pub vary : String
  pub status : ℕ
  pub forced_private : Bool
  pub tier : String

-- `EffectiveStatus`: 0 stands for 200.
unfoldable pub effective_status : ObjectMeta → ℕ
effective_status m = if m.status == 0 then 200 else m.status
