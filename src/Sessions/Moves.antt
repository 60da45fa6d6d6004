-- ===== src/Sessions/Moves.antt =====
-- Every request on the refresh tokens does what its specification allows.
use code_naut.Prelude.{
  ℕ, String, Bool, true, false, not, ◌&&◌, ◌||◌, ◌≡◌, refl, ap, inl, inr, Option, none, some, List,
  [], ◌∷◌, ◌==◌, arith, any, map, keep_if, count_if, str_eq, ==_refl, ==→≡, Bool-cases, leb,
  is_some, eq_iff,
}
use mathlib.Core.Option.{map as map_option}
use code_naut.Prelude.Table.{select, update_first, if_found_rule, if_rule, select-passes}
use code_naut.Prelude.Selecting.{
  keep_if-only, keep_if-none, keep_if-update_where_other, keep_if-update_first_other, select_shared,
  select-some,
}
use code_naut.Sessions.Model.{RefreshToken, FreshToken, has_hash, in_family, is_live, live_in}
use code_naut.Sessions.Tokens.{
  Rotation, rotated, invalid, reused, conflict, revoked, spent, revoke_family, new_token,
  issue_session, rotate_refresh_token, logout,
}
use code_naut.Sessions.Families.{
  IsRotating, Ends, revoked-Ends, spent-Ends, write-none_live, revoke-none_live, family_absent,
  Ends-not_live,
}
use code_naut.Sessions.Refines.{
  View, owner_of, view, Request, sign_in, rotate, log_out, Others, Move, opens, clashes, advances,
  collides, detects, expires, unknown, no_user, closes, strays, idles,
}

any-update_first-back :
    (q p : RefreshToken → Bool) (g : RefreshToken → RefreshToken) (xs : List RefreshToken)
    → ((x : RefreshToken) → q (g x) ≡ true → q x ≡ true)
    → any q (update_first p g xs) ≡ true
    → any q xs ≡ true
unfolding update_first
any-update_first-back q p g [] k h = absurd (ground (arith, h))
any-update_first-back q p g (x ∷ xs) k h = ground (arith, k x, any-update_first-back q p g xs k)

any-hashes :
    (h : String) (q : RefreshToken → Bool) (xs : List RefreshToken)
    → any (λ y. str_eq y h) (map (λ t. t.token_hash) (keep_if q xs))
      ≡ any (λ t. has_hash h t && q t) xs
any-hashes h q [] = refl
any-hashes h q (x ∷ xs) = elim (Bool-cases (q x)) [
  | inl e ↦ rw e (ground (arith, any-hashes h q xs, e))
  | inr e ↦ rw e (ground (arith, any-hashes h q xs, e))
]

known :
    (h : String) (tokens : List RefreshToken) (t : RefreshToken)
    → select (has_hash h) tokens ≡ some t
    → (view tokens).owner h ≡ some (owner_of t)
known h tokens t found = ap (map_option owner_of) found

unowned :
    (h : String) (tokens : List RefreshToken)
    → select (has_hash h) tokens ≡ none
    → (view tokens).owner h ≡ none
unowned h tokens found = ap (map_option owner_of) found

no_good :
    (f : ℕ) (tokens : List RefreshToken)
    → count_if (live_in f) tokens ≡ 0
    → (view tokens).good f ≡ []
no_good f tokens h = ap (map (λ t. t.token_hash)) (keep_if-none (live_in f) tokens h)

-- The good hash of the family of a live token is that token's.
only_good :
    (h : String) (tokens : List RefreshToken) (t : RefreshToken)
    → IsRotating tokens
    → select (has_hash h) tokens ≡ some t
    → is_live t ≡ true
    → (view tokens).good t.family_id ≡ h ∷ []
only_good h tokens t v found live =
    let passes : str_eq t.token_hash h ≡ true = select-passes (has_hash h) tokens found in
    let own : live_in t.family_id t ≡ true = rw (==_refl t.family_id) live in
    let kept =
      keep_if-only (has_hash h) (live_in t.family_id) tokens t found own (v.one_live t.family_id) in
    rw (kept) (ap (λ (y : String). y ∷ []) ((eq_iff t.token_hash h).0 passes))

dead-any :
    (h : String) (tokens : List RefreshToken) (t : RefreshToken)
    → IsRotating tokens
    → select (has_hash h) tokens ≡ some t
    → is_live t ≡ false
    → any (λ y. str_eq y h) ((view tokens).good t.family_id) ≡ false
dead-any h tokens t v found dead =
    rw (any-hashes h (live_in t.family_id) tokens)
      (elim (Bool-cases (any (λ y. has_hash h y && live_in t.family_id y) tokens)) [
        | inl e ↦
            let live =
              select_shared (has_hash h) (live_in t.family_id) tokens t found (v.unique h) e in
            absurd (ground (arith, live, dead))
        | inr e ↦ e
      ])

revoke-Others :
    (f now : ℕ) (reason : String) (tokens : List RefreshToken)
    → Others f (view tokens) (view (revoke_family f now reason tokens))
revoke-Others f now reason tokens g e = ap (map (λ t. t.token_hash)) (
    keep_if-update_where_other (live_in g) (in_family f) (revoked now reason) tokens (λ x k.
      let same : x.family_id ≡ f = ==→≡ x.family_id f k in
      let other : (x.family_id == g) ≡ false = rw same e in
      (ground (arith, other), ground (arith, other))))

write-Others :
    (w : RefreshToken → RefreshToken) (ends : Ends w) (h : String) (tokens : List RefreshToken)
    (t : RefreshToken)
    → select (has_hash h) tokens ≡ some t
    → Others t.family_id (view tokens) (view (update_first (has_hash h) w tokens))
write-Others w ends h tokens t found g e = ap (map (λ y. y.token_hash)) (
    keep_if-update_first_other (live_in g) (has_hash h) w tokens t found (ground (arith, e))
      (Ends-not_live w ends tokens g t))

insert-good :
    (t : RefreshToken) (tokens : List RefreshToken)
    → is_live t ≡ true
    → (view tokens).good t.family_id ≡ []
    → (view (t ∷ tokens)).good t.family_id ≡ t.token_hash ∷ []
insert-good t tokens live empty =
    rw (==_refl t.family_id, live) (ap (λ (l : List String). t.token_hash ∷ l) empty)

insert-Others :
    (t : RefreshToken) (v : View) (tokens : List RefreshToken)
    → Others t.family_id v (view tokens)
    → Others t.family_id v (view (t ∷ tokens))
insert-Others t v tokens others g e = rw e (others g e)

module _ (hash : String → String) (refresh_ttl : ℕ) where
  -- The answer of a request and the tokens after it.
  abbrev pub serve : Request → List RefreshToken → Option Rotation × List RefreshToken
  serve (sign_in user family fresh now) tokens =
      let r = issue_session hash refresh_ttl user family fresh now tokens in (some r.0, r.1)
  serve (rotate users raw fresh now) tokens =
      let r = rotate_refresh_token hash refresh_ttl users raw fresh now tokens in (some r.0, r.1)
  serve (log_out raw now) tokens = (none, logout hash refresh_ttl raw now tokens)

  -- A sign-in draws the UUID of a family that no row has.
  abbrev pub draws_new : Request → List RefreshToken → Bool
  draws_new (sign_in user family fresh now) tokens = not (any (in_family family) tokens)
  draws_new (rotate users raw fresh now) tokens = true
  draws_new (log_out raw now) tokens = true

  sign_in-Move :
      (user family : ℕ) (fresh : FreshToken) (now : ℕ) (before : List RefreshToken)
      → any (in_family family) before ≡ false
      → let r = issue_session hash refresh_ttl user family fresh now before in
        Move hash (view before) (view r.1) (sign_in user family fresh now) (some r.0)
  unfolding issue_session
  sign_in-Move user family fresh now before absent =
      let P : Rotation × List RefreshToken → Type 0 =
        λ r. Move hash (view before) (view r.1) (sign_in user family fresh now) (some r.0) in
      let none_good = no_good family before (family_absent family before absent) in
      let t = new_token hash refresh_ttl family user none fresh now in
      if_rule P (any (has_hash (hash fresh.raw)) before) _ _
        (λ e.
          let (x, found) = select-some (has_hash (hash fresh.raw)) before e in
          clashes user family fresh now (owner_of x) (known _ before x found) (λ g. refl))
        (λ e.
          opens user family fresh now none_good (insert-good t before refl none_good)
            (insert-Others t (view before) before (λ g k. refl)))

  module _ (users : List ℕ) (raw : String) (fresh : FreshToken) (now : ℕ)
      (before : List RefreshToken) (v : IsRotating before) where
    abbrev IsMove : Rotation × List RefreshToken → Type 0
    IsMove r = Move hash (view before) (view r.1) (rotate users raw fresh now) (some r.0)

    reuse-Move :
        (t : RefreshToken)
        → select (has_hash (hash raw)) before ≡ some t
        → is_live t ≡ false
        → IsMove (reused, revoke_family t.family_id now "reuse_detected" before)
    reuse-Move t found dead =
        detects users raw fresh now (owner_of t) (known (hash raw) before t found)
          (dead-any (hash raw) before t v found dead)
          (no_good t.family_id _ (revoke-none_live before t.family_id now "reuse_detected"))
          (revoke-Others t.family_id now "reuse_detected" before)

    expiry-Move :
        (t : RefreshToken)
        → select (has_hash (hash raw)) before ≡ some t
        → is_live t ≡ true
        → leb t.expires_at now ≡ true
        → IsMove (invalid, update_first (has_hash (hash raw)) (revoked now "expired") before)
    expiry-Move t found live late =
        expires users raw fresh now (owner_of t) (known (hash raw) before t found) late
          (only_good (hash raw) before t v found live)
          (no_good t.family_id _ (
            write-none_live (revoked now "expired") (revoked-Ends now "expired") before (hash raw) t
              v found live))
          (write-Others (revoked now "expired") (revoked-Ends now "expired") (hash raw) before t
            found)

    conflict-Move :
        any (has_hash (hash fresh.raw)) (update_first (has_hash (hash raw)) (spent now) before)
          ≡ true
        → IsMove (conflict, before)
    conflict-Move e =
        let there =
          any-update_first-back (has_hash (hash fresh.raw)) (has_hash (hash raw)) (spent now) before
            (λ x k. k) e in
        let (x, found) = select-some (has_hash (hash fresh.raw)) before there in
        collides users raw fresh now (owner_of x) (known _ before x found) (λ g. refl)

    spent-Move :
        (t : RefreshToken)
        → select (has_hash (hash raw)) before ≡ some t
        → is_live t ≡ true
        → leb t.expires_at now ≡ false
        → any (λ u. u == t.user_id) users ≡ true
        → IsMove (
          rotated t.user_id fresh.raw,
          new_token hash refresh_ttl t.family_id t.user_id (some t.id) fresh now
              ∷ update_first (has_hash (hash raw)) (spent now) before,
        )
    spent-Move t found live early there =
        let rest = update_first (has_hash (hash raw)) (spent now) before in
        let new = new_token hash refresh_ttl t.family_id t.user_id (some t.id) fresh now in
        advances users raw fresh now (owner_of t) (known (hash raw) before t found) early there
          (only_good (hash raw) before t v found live)
          (insert-good new rest refl (
            no_good t.family_id rest
              (write-none_live (spent now) (spent-Ends now) before (hash raw) t v found live)))
          (insert-Others new (view before) rest
            (write-Others (spent now) (spent-Ends now) (hash raw) before t found))

    rotate-Move : IsMove (rotate_refresh_token hash refresh_ttl users raw fresh now before)
    unfolding rotate_refresh_token
    rotate-Move =
        if_found_rule IsMove (select (has_hash (hash raw)) before) (invalid, before) _
          (λ absent. unknown users raw fresh now (unowned (hash raw) before absent) (λ g. refl))
          (λ t found.
            if_rule IsMove (is_some t.used_at || is_some t.revoked_at) _ _
              (λ e. reuse-Move t found (ground arith))
              (λ e.
                let live : is_live t ≡ true = ground arith in
                if_rule IsMove (leb t.expires_at now) _ _ (expiry-Move t found live) (λ early.
                  if_rule IsMove (any (λ u. u == t.user_id) users) _ _
                    (λ there.
                      if_rule IsMove
                        (any (has_hash (hash fresh.raw))
                          (update_first (has_hash (hash raw)) (spent now) before))
                        _ _ conflict-Move (λ _. spent-Move t found live early there))
                    (λ gone.
                      no_user users raw fresh now (owner_of t) (known (hash raw) before t found)
                        early gone (only_good (hash raw) before t v found live) (λ g. refl)))))

  log_out-Move :
      (raw : Option String) (now : ℕ) (before : List RefreshToken)
      → Move hash
          (view before)
          (view (logout hash refresh_ttl raw now before))
          (log_out raw now)
          none
  unfolding logout
  log_out-Move none now before = idles now (λ g. refl)
  log_out-Move (some raw) now before =
      let P : List RefreshToken → Type 0 =
        λ r. Move hash (view before) (view r) (log_out (some raw) now) none in
      if_found_rule P (select (has_hash (hash raw)) before) before _
        (λ absent. strays raw now (unowned (hash raw) before absent) (λ g. refl))
        (λ t found.
          closes raw now (owner_of t) (known (hash raw) before t found)
            (no_good t.family_id _ (revoke-none_live before t.family_id now "logout"))
            (revoke-Others t.family_id now "logout" before))

  -- On tokens where a hash names one row and a family has at most one live row, a request whose
  -- sign-in draws a new family moves the good hashes as the specification allows for that very
  -- request and its answer: a rotation replaces the one good hash of its family by the new one, a
  -- spent or revoked token ends its family, an expired one too, a logout closes the family, any
  -- other refusal changes none, and the other families keep theirs.
  pub serve-Move :
      (r : Request) (before : List RefreshToken)
      → IsRotating before
      → draws_new r before ≡ true
      → Move hash (view before) (view (serve r before).1) r (serve r before).0
  serve-Move (sign_in user family fresh now) before v new =
      sign_in-Move user family fresh now before (ground (arith, new))
  serve-Move (rotate users raw fresh now) before v new = rotate-Move users raw fresh now before v
  serve-Move (log_out raw now) before v new = log_out-Move raw now before
