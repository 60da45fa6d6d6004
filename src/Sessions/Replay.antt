-- ===== src/Sessions/Replay.antt =====
-- Ended families and dead tokens under the requests of backend/app/services/auth.py.
use code_naut.Prelude.{
  ℕ, String, Bool, true, false, ◌≡◌, subst, inl, inr, none, some, List, ◌∷◌, ◌==◌, ◌&&◌, ◌||◌,
  arith, any, count_if, Bool-cases, ==→≡, is_some,
}
use code_naut.Prelude.Table.{
  select, update_first, count_if-update_first-le, count_if-update_where-le,
}
use code_naut.Prelude.Selecting.{any-update_where, any-update_first, select-counts_too}
use code_naut.Sessions.Model.{RefreshToken, has_hash, in_family, is_live, live_in}
use code_naut.Sessions.Tokens.{revoked, spent, revoke_family, new_token}
use code_naut.Sessions.Steps.{
  Step, signs_in, rotates, logs_out, rotate_rule, issue_rule, logout_rule,
}
use code_naut.Sessions.Families.{Ends, revoked-Ends, spent-Ends}

-- The family exists and has no live token.
pub record IsEnded (family : ℕ) (tokens : List RefreshToken) : Type 0 where
  pub known : any (in_family family) tokens ≡ true
  pub none_live : count_if (live_in family) tokens ≡ 0

-- The token of this hash is there, used or revoked.
abbrev pub is_spent : RefreshToken → Bool
is_spent t = is_some t.used_at || is_some t.revoked_at

abbrev pub dead_hash : String → RefreshToken → Bool
dead_hash h t = has_hash h t && is_spent t

module _ (family : ℕ) where
  Ended-revoke :
      (f now : ℕ) (reason : String) (tokens : List RefreshToken)
      → IsEnded family tokens
      → IsEnded family (revoke_family f now reason tokens)
  Ended-revoke f now reason tokens v = record {
    known =
        any-update_where (in_family family) (in_family f) (revoked now reason) tokens (λ t e. e)
          v.known;
    none_live =
        let le =
          count_if-update_where-le (live_in family) (in_family f) (revoked now reason) tokens
            (λ t _ e. absurd (ground (arith, e))) in
        let none_before = v.none_live in omega (arith, le, none_before);
  }

  Ended-write :
      (h : String) (g : RefreshToken → RefreshToken) (tokens : List RefreshToken)
      → Ends g
      → ((t : RefreshToken) → in_family family t ≡ true → in_family family (g t) ≡ true)
      → IsEnded family tokens
      → IsEnded family (update_first (has_hash h) g tokens)
  Ended-write h g tokens ends kept v = record {
    known = any-update_first (in_family family) (has_hash h) g tokens kept v.known;
    none_live =
        let le =
          count_if-update_first-le (live_in family) (has_hash h) g tokens
            (λ t _ e. absurd (let d = ends.dead t in ground (arith, d, e))) in
        let none_before = v.none_live in omega (arith, le, none_before);
  }

  Ended-insert :
      (t : RefreshToken) (tokens : List RefreshToken)
      → (t.family_id == family) ≡ false
      → IsEnded family tokens
      → IsEnded family (t ∷ tokens)
  Ended-insert t tokens other v = record {
    known = rw other v.known;
    none_live = rw other v.none_live;
  }

  -- A live token is of another family.
  live_elsewhere :
      (h : String) (t : RefreshToken) (tokens : List RefreshToken)
      → IsEnded family tokens
      → select (has_hash h) tokens ≡ some t
      → is_live t ≡ true
      → (t.family_id == family) ≡ false
  live_elsewhere h t tokens v found live = elim (Bool-cases (t.family_id == family)) [
    | inl e ↦
        let some_live =
          select-counts_too (has_hash h) (live_in family) tokens t found
            (ground (arith, e, live)) in
        let none_left = v.none_live in absurd (omega (arith, some_live, none_left))
    | inr e ↦ e
  ]

module _ (hash : String → String) (refresh_ttl : ℕ) where
  pub Step-IsEnded :
      (family : ℕ) (before after : List RefreshToken)
      → Step hash refresh_ttl before after
      → IsEnded family before
      → IsEnded family after
  Step-IsEnded family before after (signs_in user_id f fresh now absent e) v = rw e (
      issue_rule hash refresh_ttl (λ r. IsEnded family r.1) user_id f fresh now before v
        (λ _.
          Ended-insert family (new_token hash refresh_ttl f user_id none fresh now) before
            (elim (Bool-cases (f == family)) [
              | inl q ↦
                  let same : f ≡ family = ==→≡ f family q in
                  let here = v.known in
                  absurd (
                    let gone = subst (λ (x : ℕ). any (in_family x) before ≡ false) same absent in
                    ground (arith, here, gone))
              | inr q ↦ q
            ])
            v))
  Step-IsEnded family before after (rotates users raw fresh now e) v = rw e (
      rotate_rule hash refresh_ttl (λ r. IsEnded family r.1) users raw fresh now before v
        (λ t _ _. Ended-revoke family t.family_id now "reuse_detected" before v)
        (λ t _ _.
          Ended-write family (hash raw) (revoked now "expired") before (revoked-Ends now "expired")
            (λ x k. k) v)
        v
        (λ t found live _.
          Ended-insert family
            (new_token hash refresh_ttl t.family_id t.user_id (some t.id) fresh now) _
            (live_elsewhere family (hash raw) t before v found live)
            (Ended-write family (hash raw) (spent now) before (spent-Ends now) (λ x k. k) v)))
  Step-IsEnded family before after (logs_out raw now e) v = rw e (
      logout_rule hash refresh_ttl (IsEnded family) raw now before v
        (λ f. Ended-revoke family f now "logout" before v))

  pub Step-dead :
      (h : String) (before after : List RefreshToken)
      → Step hash refresh_ttl before after
      → any (dead_hash h) before ≡ true
      → any (dead_hash h) after ≡ true
  Step-dead h before after (signs_in user_id f fresh now absent e) v = rw e (
      issue_rule hash refresh_ttl (λ r. any (dead_hash h) r.1 ≡ true) user_id f fresh now before v
        (λ _. ground (arith, v)))
  Step-dead h before after (rotates users raw fresh now e) v = rw e (
      rotate_rule hash refresh_ttl (λ r. any (dead_hash h) r.1 ≡ true) users raw fresh now before v
        (λ t _ _.
          any-update_where (dead_hash h) (in_family t.family_id) (revoked now "reuse_detected")
            before (λ x k. ground (arith, k)) v)
        (λ t _ _.
          any-update_first (dead_hash h) (has_hash (hash raw)) (revoked now "expired") before
            (λ x k. ground (arith, k)) v)
        v
        (λ t _ _ _.
          let old =
            any-update_first (dead_hash h) (has_hash (hash raw)) (spent now) before
              (λ x k. ground (arith, k)) v in
          ground (arith, old)))
  Step-dead h before after (logs_out raw now e) v = rw e (
      logout_rule hash refresh_ttl (λ tokens. any (dead_hash h) tokens ≡ true) raw now before v
        (λ f.
          any-update_where (dead_hash h) (in_family f) (revoked now "logout") before
            (λ x k. ground (arith, k)) v))
