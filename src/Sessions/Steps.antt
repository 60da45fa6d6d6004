-- ===== src/Sessions/Steps.antt =====
-- The refresh-token table as a state machine, and the ways that one rotation can end.
use code_naut.Prelude.{
  ℕ, String, true, false, ◌||◌, ◌≡◌, Option, none, some, List, ◌∷◌, ◌==◌, leb, any, is_some, arith,
}
use code_naut.Prelude.Table.{select, update_first, if_found_rule, if_rule}
use code_naut.Sessions.Model.{RefreshToken, FreshToken, has_hash, in_family, is_live}
use code_naut.Sessions.Tokens.{
  Rotation, revoked, spent, revoke_family, rotated, invalid, reused, conflict, new_token,
  issue_session, rotate_refresh_token, logout,
}

module _ (hash : String → String) (refresh_ttl : ℕ) where
  -- One request that ends; a sign-in draws the UUID of a family that no row has.
  pub data Step (before after : List RefreshToken) : Type 0 where
    signs_in :
        (user_id family : ℕ) (fresh : FreshToken) (now : ℕ)
        → any (in_family family) before ≡ false
        → after ≡ (issue_session hash refresh_ttl user_id family fresh now before).1
        → Step before after
    rotates :
        (users : List ℕ) (raw : String) (fresh : FreshToken) (now : ℕ)
        → after ≡ (rotate_refresh_token hash refresh_ttl users raw fresh now before).1
        → Step before after
    logs_out :
        (raw : Option String) (now : ℕ)
        → after ≡ logout hash refresh_ttl raw now before
        → Step before after

  pub data Reach (start : List RefreshToken) : List RefreshToken → Type 0 where
    here : Reach start start
    next : {mid after : List RefreshToken} → Reach start mid → Step mid after → Reach start after

  -- What every step keeps holds of all that is reached.
  pub Reach_rule :
      (P : List RefreshToken → Type 0) {start after : List RefreshToken}
      → ((t u : List RefreshToken) → Step t u → P t → P u)
      → P start
      → Reach start after
      → P after
  Reach_rule P keep p here = p
  Reach_rule P keep p (next {mid} {after} r st) = keep mid after st (Reach_rule P keep p r)

  pub rotate_rule :
      (P : Rotation × List RefreshToken → Type 0) (users : List ℕ) (raw : String)
      (fresh : FreshToken) (now : ℕ) (tokens : List RefreshToken)
      → P (invalid, tokens)
      → ((t : RefreshToken)
          → select (has_hash (hash raw)) tokens ≡ some t
          → is_live t ≡ false
          → P (reused, revoke_family t.family_id now "reuse_detected" tokens))
      → ((t : RefreshToken)
          → select (has_hash (hash raw)) tokens ≡ some t
          → is_live t ≡ true
          → P (invalid, update_first (has_hash (hash raw)) (revoked now "expired") tokens))
      → P (conflict, tokens)
      → ((t : RefreshToken)
          → select (has_hash (hash raw)) tokens ≡ some t
          → is_live t ≡ true
          → any (has_hash (hash fresh.raw)) (update_first (has_hash (hash raw)) (spent now) tokens)
            ≡ false
          → P (
            rotated t.user_id fresh.raw,
            new_token hash refresh_ttl t.family_id t.user_id (some t.id) fresh now
                ∷ update_first (has_hash (hash raw)) (spent now) tokens,
          ))
      → P (rotate_refresh_token hash refresh_ttl users raw fresh now tokens)
  unfolding rotate_refresh_token
  rotate_rule P users raw fresh now tokens h_invalid h_reused h_expired h_conflict h_rotated =
      if_found_rule P (select (has_hash (hash raw)) tokens) (invalid, tokens) _ (λ _. h_invalid)
        (λ t found.
          if_rule P (is_some t.used_at || is_some t.revoked_at) _ _
            (λ e. h_reused t found (ground arith))
            (λ e.
              let live : is_live t ≡ true = ground arith in
              if_rule P (leb t.expires_at now) _ _ (λ _. h_expired t found live)
                (λ _.
                  if_rule P (any (λ u. u == t.user_id) users) _ _
                    (λ _.
                      if_rule P
                        (any (has_hash (hash fresh.raw))
                          (update_first (has_hash (hash raw)) (spent now) tokens))
                        _ _ (λ _. h_conflict) (λ absent. h_rotated t found live absent))
                    (λ _. h_invalid))))

  pub issue_rule :
      (P : Rotation × List RefreshToken → Type 0) (user_id family : ℕ) (fresh : FreshToken)
      (now : ℕ) (tokens : List RefreshToken)
      → P (conflict, tokens)
      → (any (has_hash (hash fresh.raw)) tokens ≡ false
          → P (
            rotated user_id fresh.raw,
            new_token hash refresh_ttl family user_id none fresh now ∷ tokens,
          ))
      → P (issue_session hash refresh_ttl user_id family fresh now tokens)
  unfolding issue_session
  issue_rule P user_id family fresh now tokens h_conflict h_rotated =
      if_rule P (any (has_hash (hash fresh.raw)) tokens) _ _ (λ _. h_conflict) (λ e. h_rotated e)

  pub logout_rule :
      (P : List RefreshToken → Type 0) (raw : Option String) (now : ℕ) (tokens : List RefreshToken)
      → P tokens
      → ((family : ℕ) → P (revoke_family family now "logout" tokens))
      → P (logout hash refresh_ttl raw now tokens)
  unfolding logout
  logout_rule P none now tokens h k = h
  logout_rule P (some raw) now tokens h k =
      if_found_rule P (select (has_hash (hash raw)) tokens) tokens _ (λ _. h) (λ t _. k t.family_id)
