-- ===== src/Sessions/Reuse.antt =====
-- Repeated rotations of one raw token (rotate_refresh_token of backend/app/services/auth.py).
use code_naut.Prelude.{ℕ, String, Bool, true, false, ◌≡◌, refl, some, List, arith, any, ==_refl}
use code_naut.Prelude.Table.{select}
use code_naut.Prelude.Selecting.{
  any-update_where, any-weaken, any-select, select-some, select_shared, any-update_first_hit,
}
use code_naut.Sessions.Model.{RefreshToken, FreshToken, has_hash, in_family}
use code_naut.Sessions.Tokens.{
  Rotation, revoked, spent, revoke_family, rotated, invalid, reused, conflict, rotate_refresh_token,
}
use code_naut.Sessions.Steps.{rotates, Reach, Reach_rule, rotate_rule}
use code_naut.Sessions.Families.{IsRotating, revoke-none_live, Reach-IsRotating, Step-IsRotating}
use code_naut.Sessions.Replay.{IsEnded, dead_hash, is_spent, Step-IsEnded, Step-dead}

abbrev pub is_rotated : Rotation → Bool
is_rotated (rotated u raw) = true
is_rotated invalid = false
is_rotated reused = false
is_rotated conflict = false

revoke-IsEnded :
    (family now : ℕ) (reason : String) (tokens : List RefreshToken)
    → any (in_family family) tokens ≡ true
    → IsEnded family (revoke_family family now reason tokens)
revoke-IsEnded family now reason tokens known = record {
  known =
      any-update_where (in_family family) (in_family family) (revoked now reason) tokens (λ t e. e)
        known;
  none_live = revoke-none_live tokens family now reason;
}

module _ (hash : String → String) (refresh_ttl : ℕ) where
  rotate-dead :
      (users : List ℕ) (raw : String) (fresh : FreshToken) (now : ℕ) (tokens : List RefreshToken)
      (t : RefreshToken)
      → select (has_hash (hash raw)) tokens ≡ some t
      → is_spent t ≡ true
      → rotate_refresh_token hash refresh_ttl users raw fresh now tokens
        ≡ (reused, revoke_family t.family_id now "reuse_detected" tokens)
  unfolding rotate_refresh_token
  rotate-dead users raw fresh now tokens t found dead = rw (found, dead) refl

  rotated-dead :
      (users : List ℕ) (raw : String) (fresh : FreshToken) (now : ℕ) (tokens : List RefreshToken)
      → let r = rotate_refresh_token hash refresh_ttl users raw fresh now tokens in
        is_rotated r.0 ≡ true → any (dead_hash (hash raw)) r.1 ≡ true
  rotated-dead users raw fresh now tokens =
      rotate_rule hash refresh_ttl
        (λ r. is_rotated r.0 ≡ true → any (dead_hash (hash raw)) r.1 ≡ true) users raw fresh now
        tokens (λ e. absurd (ground (arith, e))) (λ t _ _ e. absurd (ground (arith, e)))
        (λ t _ _ e. absurd (ground (arith, e))) (λ e. absurd (ground (arith, e)))
        (λ t found _ _ _.
          let hit =
            any-update_first_hit (dead_hash (hash raw)) (has_hash (hash raw)) (spent now) tokens t
              found (λ x k. ground (arith, k)) in
          ground (arith, hit))

  -- Where hashes are unique and families have at most one live token, and a rotation of a raw token has
  -- succeeded, every later rotation of the same raw token, whatever requests ended in between, is answered
  -- `reused` and leaves the token's family without any live token.
  pub replay_reused :
      (users later_users : List ℕ) (raw : String) (fresh later_fresh : FreshToken) (now later : ℕ)
      (start after : List RefreshToken)
      → IsRotating start
      → is_rotated (rotate_refresh_token hash refresh_ttl users raw fresh now start).0 ≡ true
      → Reach hash refresh_ttl
          (rotate_refresh_token hash refresh_ttl users raw fresh now start).1
          after
      → let r = rotate_refresh_token hash refresh_ttl later_users raw later_fresh later after in
        (r.0 ≡ reused)
        × ((t : RefreshToken) × (select (has_hash (hash raw)) after ≡ some t)
            × IsEnded t.family_id r.1)
  replay_reused users later_users raw fresh later_fresh now later start after v won reach =
      let mid = rotate_refresh_token hash refresh_ttl users raw fresh now start in
      let valid_mid : IsRotating mid.1 =
        Step-IsRotating hash refresh_ttl start mid.1 (rotates users raw fresh now refl) v in
      let valid = Reach-IsRotating hash refresh_ttl mid.1 after valid_mid reach in
      let dead =
        Reach_rule hash refresh_ttl (λ tokens. any (dead_hash (hash raw)) tokens ≡ true)
          (Step-dead hash refresh_ttl (hash raw)) (rotated-dead users raw fresh now start won)
          reach in
      let known =
        any-weaken (dead_hash (hash raw)) (has_hash (hash raw)) after (λ t k. ground (arith, k))
          dead in
      let found = select-some (has_hash (hash raw)) after known in
      let t = found.0 in
      let ended =
        select_shared (has_hash (hash raw)) is_spent after t found.1 (valid.unique (hash raw))
          dead in
      rw (rotate-dead later_users raw later_fresh later after t found.1 ended) (
        refl,
        (
          t,
          found.1,
          revoke-IsEnded t.family_id later "reuse_detected" after (
              any-select (in_family t.family_id) (has_hash (hash raw)) after t found.1
                (==_refl t.family_id)),
        ),
      )

  -- A family that exists and has no live token has none after whatever requests end.
  pub Reach-IsEnded :
      (family : ℕ) (start after : List RefreshToken)
      → IsEnded family start
      → Reach hash refresh_ttl start after
      → IsEnded family after
  Reach-IsEnded family start after v r =
      Reach_rule hash refresh_ttl (IsEnded family) (Step-IsEnded hash refresh_ttl family) v r
