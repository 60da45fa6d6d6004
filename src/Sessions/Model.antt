-- ===== src/Sessions/Model.antt =====
-- The rows of backend/app/db/models/auth.py. UUIDs and times (seconds) are numbers.
use code_naut.Prelude.{ℕ, String, Bool, Option, is_none, str_eq, ◌==◌, ◌&&◌}

pub record RefreshToken : Type 0 where
  pub id : ℕ
  pub family_id : ℕ
  pub user_id : ℕ
  pub token_hash : String
  pub parent_token_id : Option ℕ
  pub expires_at : ℕ
  pub used_at : Option ℕ
  pub revoked_at : Option ℕ
  pub revocation_reason : Option String

pub data AuthProvider : Type 0 where
  github google : AuthProvider

pub data OAuthFlow : Type 0 where
  sign_in link : OAuthFlow

pub record OAuthState : Type 0 where
  pub state_hash : String
  pub code_verifier_hash : String
  pub provider : AuthProvider
  pub flow : OAuthFlow
  pub nonce_hash : Option String
  pub intended_user_id : Option ℕ
  pub expires_at : ℕ
  pub used_at : Option ℕ

-- A random token as TokenService draws it, and the UUID of its row.
pub record FreshToken : Type 0 where
  pub raw : String
  pub id : ℕ

abbrev pub has_hash : String → RefreshToken → Bool
has_hash h t = str_eq t.token_hash h

abbrev pub in_family : ℕ → RefreshToken → Bool
in_family f t = t.family_id == f

-- Neither used nor revoked.
abbrev pub is_live : RefreshToken → Bool
is_live t = is_none t.used_at && is_none t.revoked_at

abbrev pub live_in : ℕ → RefreshToken → Bool
live_in f t = in_family f t && is_live t
