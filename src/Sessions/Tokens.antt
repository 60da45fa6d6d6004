-- ===== src/Sessions/Tokens.antt =====
-- The refresh-token methods of AuthService in backend/app/services/auth.py: _issue_session,
-- rotate_refresh_token and logout. `hash` is hash_opaque_token. The unique index on token_hash makes
-- an INSERT fail, which is `conflict`; a failure before a commit leaves the table as it was.
use code_naut.Prelude.{
  ℕ, ◌+◌, String, ◌||◌, Option, none, some, List, ◌∷◌, ◌==◌, leb, any, is_some, if◌then◌else◌,
}
use code_naut.Prelude.Table.{select, update_where, update_first, if_found}
use code_naut.Sessions.Model.{RefreshToken, FreshToken, has_hash, in_family}

abbrev pub revoked : ℕ → String → RefreshToken → RefreshToken
revoked now reason t = record t { revoked_at = some now; revocation_reason = some reason }

abbrev pub spent : ℕ → RefreshToken → RefreshToken
spent now t = record t {
  used_at = some now;
  revoked_at = some now;
  revocation_reason = some "rotated";
}

-- UPDATE … WHERE family_id = …
abbrev pub revoke_family : ℕ → ℕ → String → List RefreshToken → List RefreshToken
revoke_family family now reason tokens = update_where (in_family family) (revoked now reason) tokens

-- What a caller gets: the user and the new raw token, or an error.
pub data Rotation : Type 0 where
  rotated : (user_id : ℕ) (raw : String) → Rotation
  invalid : Rotation
  reused : Rotation
  conflict : Rotation

-- INSERT under the unique index.
abbrev pub inserted :
    RefreshToken → List RefreshToken → List RefreshToken → Rotation → Rotation × List RefreshToken
inserted t old tokens answer =
    if any (has_hash t.token_hash) tokens then (conflict, old) else (answer, t ∷ tokens)

module _ (hash : String → String) (refresh_ttl : ℕ) where
  abbrev pub new_token : ℕ → ℕ → Option ℕ → FreshToken → ℕ → RefreshToken
  new_token family user_id parent fresh now = record {
    id = fresh.id;
    family_id = family;
    user_id = user_id;
    token_hash = hash fresh.raw;
    parent_token_id = parent;
    expires_at = now + refresh_ttl;
    used_at = none;
    revoked_at = none;
    revocation_reason = none;
  }

  unfoldable pub issue_session :
      ℕ → ℕ → FreshToken → ℕ → List RefreshToken → Rotation × List RefreshToken
  issue_session user_id family fresh now tokens =
      inserted (new_token family user_id none fresh now) tokens tokens (rotated user_id fresh.raw)

  -- The row found is written through; no other row has its hash.
  unfoldable pub rotate_refresh_token :
      List ℕ → String → FreshToken → ℕ → List RefreshToken → Rotation × List RefreshToken
  rotate_refresh_token users raw fresh now tokens =
      if_found (select (has_hash (hash raw)) tokens) (invalid, tokens)
        (λ t.
          if is_some t.used_at || is_some t.revoked_at
          then (reused, revoke_family t.family_id now "reuse_detected" tokens)
          else (if leb t.expires_at now
              then (invalid, update_first (has_hash (hash raw)) (revoked now "expired") tokens)
              else (if any (λ u. u == t.user_id) users
                  then inserted (new_token t.family_id t.user_id (some t.id) fresh now) tokens
                      (update_first (has_hash (hash raw)) (spent now) tokens)
                      (rotated t.user_id fresh.raw)
                  else (invalid, tokens))))

  unfoldable pub logout : Option String → ℕ → List RefreshToken → List RefreshToken
  logout none now tokens = tokens
  logout (some raw) now tokens =
      if_found (select (has_hash (hash raw)) tokens) tokens
        (λ t. revoke_family t.family_id now "logout" tokens)
