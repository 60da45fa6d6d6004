-- ===== src/Sessions/Families.antt =====
-- The invariant of the refresh tokens of backend/app/services/auth.py.
use code_naut.Prelude.{
  ℕ, ◌≤◌, String, Bool, true, false, ◌≡◌, refl, sym, subst, inl, inr, some, List, ◌∷◌, ◌==◌, ◌&&◌,
  arith, any, count_if, All-map, Bool-cases, str_eq, eq_iff, ==→≡,
}
use code_naut.Prelude.Table.{
  select, update_first, count_if-update_first-le, count_if-update_where-le, select-passes,
}
use code_naut.Prelude.Counting.{update_first_unique, count_if-eq-zero, All-only, count_if_mono}
use code_naut.Prelude.Selecting.{select_only, count_if-update_where_gone, All-every}
use code_naut.Sessions.Model.{RefreshToken, has_hash, in_family, is_live, live_in}
use code_naut.Sessions.Tokens.{revoked, spent, revoke_family, new_token}
use code_naut.Sessions.Steps.{
  Step, signs_in, rotates, logs_out, Reach, Reach_rule, rotate_rule, issue_rule, logout_rule,
}

pub record IsRotating (tokens : List RefreshToken) : Type 0 where
  pub unique : (h : String) → count_if (has_hash h) tokens ≤ 1
  pub one_live : (f : ℕ) → count_if (live_in f) tokens ≤ 1

-- A write that ends a token and leaves its hash and its family.
pub record Ends (g : RefreshToken → RefreshToken) : Type 0 where
  pub same_hash : (t : RefreshToken) → (g t).token_hash ≡ t.token_hash
  pub same_family : (t : RefreshToken) → (g t).family_id ≡ t.family_id
  pub dead : (t : RefreshToken) → is_live (g t) ≡ false

pub revoked-Ends : (now : ℕ) (reason : String) → Ends (revoked now reason)
revoked-Ends now reason = record {
  same_hash = λ t. refl;
  same_family = λ t. refl;
  dead = λ t. ground arith;
}

pub spent-Ends : (now : ℕ) → Ends (spent now)
spent-Ends now = record { same_hash = λ t. refl; same_family = λ t. refl; dead = λ t. refl }

module _ (g : RefreshToken → RefreshToken) (ends : Ends g) (tokens : List RefreshToken) where
  pub Ends-not_live : (f : ℕ) (t : RefreshToken) → live_in f (g t) ≡ false
  Ends-not_live f t = let d = ends.dead t in ground (arith, d)

  pub write-IsRotating :
      (h : String) → IsRotating tokens → IsRotating (update_first (has_hash h) g tokens)
  write-IsRotating h v = record {
    unique = λ k.
        let le =
          count_if-update_first-le (has_hash k) (has_hash h) g tokens
            (λ t _ e. rw (ends.same_hash t) at e) in
        let one = v.unique k in omega (arith, le, one);
    one_live = λ f.
        let le =
          count_if-update_first-le (live_in f) (has_hash h) g tokens
            (λ t _ e. absurd (let d = Ends-not_live f t in ground (arith, d, e))) in
        let one = v.one_live f in omega (arith, le, one);
  }

  -- The family of a live token that is ended has none left.
  pub write-none_live :
      (h : String) (t : RefreshToken)
      → IsRotating tokens
      → select (has_hash h) tokens ≡ some t
      → is_live t ≡ true
      → count_if (live_in t.family_id) (update_first (has_hash h) g tokens) ≡ 0
  write-none_live h t v found live =
      let here = select-passes (has_hash h) tokens found in
      let both : RefreshToken → Bool = λ y. has_hash h y && live_in t.family_id y in
      let one = v.one_live t.family_id in
      let only = select_only (has_hash h) both tokens t found (ground (arith, here, live)) (
        let le = count_if_mono both (live_in t.family_id) tokens (λ y e. ground (arith, e)) in
        omega (arith, le, one)) in
      let all = All-only (live_in t.family_id) both tokens t (λ y e. ground (arith, e)) one only in
      rw (update_first_unique (has_hash h) g tokens (v.unique h)) (
        count_if-update_where_gone (live_in t.family_id) (has_hash h) g tokens
          (All-map tokens (λ y k e. let b = k e in ground (arith, b)) all)
          (λ x _. Ends-not_live t.family_id x))

module _ (tokens : List RefreshToken) (family now : ℕ) (reason : String) where
  pub revoke-IsRotating : IsRotating tokens → IsRotating (revoke_family family now reason tokens)
  revoke-IsRotating v = record {
    unique = λ k.
        let le =
          count_if-update_where-le (has_hash k) (in_family family) (revoked now reason) tokens
            (λ t _ e. e) in
        let one = v.unique k in omega (arith, le, one);
    one_live = λ f.
        let le =
          count_if-update_where-le (live_in f) (in_family family) (revoked now reason) tokens
            (λ t _ e. absurd (ground (arith, e))) in
        let one = v.one_live f in omega (arith, le, one);
  }

  pub revoke-none_live : count_if (live_in family) (revoke_family family now reason tokens) ≡ 0
  revoke-none_live =
      count_if-update_where_gone (live_in family) (in_family family) (revoked now reason) tokens
        (All-every (λ t. live_in family t ≡ true → in_family family t ≡ true) tokens
          (λ t e. ground (arith, e)))
        (λ t _. ground arith)

-- An INSERT under the unique index, into a family with no live token.
pub insert-IsRotating :
    (t : RefreshToken) (tokens : List RefreshToken)
    → IsRotating tokens
    → any (has_hash t.token_hash) tokens ≡ false
    → count_if (live_in t.family_id) tokens ≡ 0
    → IsRotating (t ∷ tokens)
insert-IsRotating t tokens v absent none_live = record {
  unique = λ k. elim (Bool-cases (str_eq t.token_hash k)) [
    | inl e ↦
        let same : t.token_hash ≡ k = (eq_iff t.token_hash k).0 e in
        let zero_left =
          subst (λ (x : String). count_if (has_hash x) tokens ≡ 0) same
            (count_if-eq-zero (has_hash t.token_hash) tokens absent) in
        rw e (omega (arith, zero_left))
    | inr e ↦ rw e (v.unique k)
  ];
  one_live = λ f. elim (Bool-cases (t.family_id == f)) [
    | inl e ↦
        let same : t.family_id ≡ f = ==→≡ t.family_id f e in
        let zero_left : count_if (live_in f) tokens ≡ 0 = rw (sym same) none_live in
        ground (arith, zero_left)
    | inr e ↦ rw e (v.one_live f)
  ];
}

pub family_absent :
    (f : ℕ) (tokens : List RefreshToken)
    → any (in_family f) tokens ≡ false
    → count_if (live_in f) tokens ≡ 0
family_absent f tokens h =
    let all_zero = count_if-eq-zero (in_family f) tokens h in
    let le = count_if_mono (live_in f) (in_family f) tokens (λ t e. ground (arith, e)) in
    omega (arith, all_zero, le)

module _ (hash : String → String) (refresh_ttl : ℕ) where
  -- Every request keeps the invariant.
  pub Step-IsRotating :
      (before after : List RefreshToken)
      → Step hash refresh_ttl before after
      → IsRotating before
      → IsRotating after
  Step-IsRotating before after (signs_in user_id family fresh now absent e) v = rw e (
      issue_rule hash refresh_ttl (λ r. IsRotating r.1) user_id family fresh now before v
        (λ new. insert-IsRotating _ before v new (family_absent family before absent)))
  Step-IsRotating before after (rotates users raw fresh now e) v = rw e (
      rotate_rule hash refresh_ttl (λ r. IsRotating r.1) users raw fresh now before v
        (λ t _ _. revoke-IsRotating before t.family_id now "reuse_detected" v)
        (λ t _ _.
          write-IsRotating (revoked now "expired") (revoked-Ends now "expired") before (hash raw) v)
        v
        (λ t found live new.
          insert-IsRotating (new_token hash refresh_ttl t.family_id t.user_id (some t.id) fresh now)
            _ (write-IsRotating (spent now) (spent-Ends now) before (hash raw) v) new
            (write-none_live (spent now) (spent-Ends now) before (hash raw) t v found live)))
  Step-IsRotating before after (logs_out raw now e) v = rw e (
      logout_rule hash refresh_ttl IsRotating raw now before v
        (λ family. revoke-IsRotating before family now "logout" v))

  -- From tokens where it holds, whatever requests end: a hash names at most one token, and a family has at
  -- most one token that is neither used nor revoked.
  pub Reach-IsRotating :
      (start after : List RefreshToken)
      → IsRotating start
      → Reach hash refresh_ttl start after
      → IsRotating after
  Reach-IsRotating start after v r = Reach_rule hash refresh_ttl IsRotating Step-IsRotating v r
