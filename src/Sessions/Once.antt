-- ===== src/Sessions/Once.antt =====
-- Repeated callbacks of one OAuth state (backend/app/services/auth.py).
use code_naut.Prelude.{
  ℕ, ◌≤◌, ◌<◌, String, Bool, true, false, ◌&&◌, ◌||◌, ◌≡◌, refl, subst, inl, inr, Option, none,
  some, List, ◌∷◌, arith, any, count_if, is_some, str_eq, eq_iff, Bool-cases,
}
use code_naut.Prelude.Table.{select, update_first, if_rule, count_if-update_first-le}
use code_naut.Prelude.Counting.{count_if-eq-zero}
use code_naut.Prelude.Selecting.{any-update_first, any-update_first_hit, select_shared}
use code_naut.Sessions.Model.{AuthProvider, OAuthState}
use code_naut.Sessions.OAuth.{
  has_state, used, same_provider, nonce_matches, consume_oauth_state, new_state, is_missing,
  start_oauth, Request, Requests, starts, consumes, here, next, consume_rule,
}

module _ (hash : String → String) where
  abbrev pub is_used : OAuthState → Bool
  is_used s = is_some s.used_at

  -- The states have unique hashes, and the one of this hash is used.
  pub record IsUsed (h : String) (states : List OAuthState) : Type 0 where
    pub unique : (k : String) → count_if (has_state k) states ≤ 1
    pub done : any (λ s. has_state h s && is_used s) states ≡ true

  write_unique :
      (h : String) (now : ℕ) (states : List OAuthState)
      → ((k : String) → count_if (has_state k) states ≤ 1)
      → (k : String) → count_if (has_state k) (update_first (has_state h) (used now) states) ≤ 1
  write_unique h now states u k =
      let le =
        count_if-update_first-le (has_state k) (has_state h) (used now) states (λ s _ e. e) in
      let one = u k in omega (arith, le, one)

  insert_unique :
      (s : OAuthState) (states : List OAuthState)
      → any (has_state s.state_hash) states ≡ false
      → ((k : String) → count_if (has_state k) states ≤ 1)
      → (k : String) → count_if (has_state k) (s ∷ states) ≤ 1
  insert_unique s states absent u k = elim (Bool-cases (str_eq s.state_hash k)) [
    | inl e ↦
        let same : s.state_hash ≡ k = (eq_iff s.state_hash k).0 e in
        let zero_left =
          subst (λ (x : String). count_if (has_state x) states ≡ 0) same
            (count_if-eq-zero (has_state s.state_hash) states absent) in
        rw e (omega (arith, zero_left))
    | inr e ↦ rw e (u k)
  ]

  Request-IsUsed :
      (h : String) (before after : List OAuthState)
      → Request hash before after
      → IsUsed h before
      → IsUsed h after
  unfolding start_oauth
  Request-IsUsed h before after (starts users state_ttl provider link state verifier nonce now e)
        v =
      let row = new_state hash state_ttl provider link state verifier nonce now in
      rw e (
        if_rule (λ (r : Option OAuthState × List OAuthState). IsUsed h r.1)
          (is_missing users link || any (has_state row.state_hash) before) _ _ (λ _. v)
          (λ ok. record {
            unique = insert_unique row before (ground (arith, ok)) v.unique;
            done = let d = v.done in ground (arith, d);
          }))
  Request-IsUsed h before after (consumes state verifier provider nonce now e) v = rw e (
      consume_rule hash (λ (r : Option OAuthState × List OAuthState). IsUsed h r.1) state verifier
        provider nonce now before v
        (λ s _ _ _. record {
          unique = write_unique (hash state) now before v.unique;
          done =
              any-update_first (λ s. has_state h s && is_used s) (has_state (hash state)) (used now)
                before (λ x k. ground (arith, k)) v.done;
        }))

  Requests-IsUsed :
      (h : String) (start after : List OAuthState)
      → Requests hash start after
      → IsUsed h start
      → IsUsed h after
  Requests-IsUsed h start after here v = v
  Requests-IsUsed h start after (next {mid} r st) v =
      Request-IsUsed h mid after st (Requests-IsUsed h start mid r v)

  -- What a successful callback has checked.
  pub record Consumed (state code_verifier : String) (provider : AuthProvider)
      (nonce : Option String) (now : ℕ) (states : List OAuthState) (s : OAuthState) : Type 0 where
    pub found : select (has_state (hash state)) states ≡ some s
    pub same : same_provider s.provider provider ≡ true
    pub unused : s.used_at ≡ none
    pub unexpired : now < s.expires_at
    pub verified : s.code_verifier_hash ≡ hash code_verifier
    pub nonce_ok : nonce_matches hash s.nonce_hash nonce ≡ true

  is_none_eq : (o : Option ℕ) → is_some o ≡ false → o ≡ none
  is_none_eq none h = refl
  is_none_eq (some x) h = absurd (ground (arith, h))

  -- A callback that is accepted found the state of its hash, for the same provider, unused, unexpired, with
  -- the hash of the given verifier, and with a nonce exactly if one is given, and then of its hash.
  pub consume_oauth_state_sound :
      (state code_verifier : String) (provider : AuthProvider) (nonce : Option String) (now : ℕ)
      (states : List OAuthState) (r : OAuthState)
      → (consume_oauth_state hash state code_verifier provider nonce now states).0 ≡ some r
      → (s : OAuthState) × Consumed state code_verifier provider nonce now states s
        × (r ≡ used now s)
  consume_oauth_state_sound state code_verifier provider nonce now states r =
      consume_rule hash
        (λ (a : Option OAuthState × List OAuthState).
          a.0 ≡ some r
          → (s : OAuthState) × Consumed state code_verifier provider nonce now states s
            × (r ≡ used now s))
        state code_verifier provider nonce now states (λ e. absurd (ground (arith, e)))
        (λ s found ok match e. (
          s,
          record {
            found = found;
            same = ground (arith, ok);
            unused = is_none_eq s.used_at (ground (arith, ok));
            unexpired = ground (arith, ok);
            verified = (eq_iff s.code_verifier_hash (hash code_verifier)).0 (ground (arith, ok));
            nonce_ok = match;
          },
          ground (arith, e),
        ))

  consumed-IsUsed :
      (state code_verifier : String) (provider : AuthProvider) (nonce : Option String) (now : ℕ)
      (states : List OAuthState)
      → ((k : String) → count_if (has_state k) states ≤ 1)
      → let r = consume_oauth_state hash state code_verifier provider nonce now states in
        is_some r.0 ≡ true → IsUsed (hash state) r.1
  consumed-IsUsed state code_verifier provider nonce now states u =
      consume_rule hash
        (λ (r : Option OAuthState × List OAuthState). is_some r.0 ≡ true → IsUsed (hash state) r.1)
        state code_verifier provider nonce now states (λ e. absurd (ground (arith, e)))
        (λ s found _ _ _. record {
          unique = write_unique (hash state) now states u;
          done =
              any-update_first_hit (λ x. has_state (hash state) x && is_used x)
                (has_state (hash state)) (used now) states s found (λ x k. ground (arith, k));
        })

  -- Where state hashes are unique and a callback was accepted, no later callback with the same state is, whatever
  -- its verifier, provider, nonce and time and whatever requests came between.
  pub consume_oauth_state_once :
      (state verifier later_verifier : String) (provider later_provider : AuthProvider)
      (nonce later_nonce : Option String) (now later : ℕ) (start after : List OAuthState)
      → ((k : String) → count_if (has_state k) start ≤ 1)
      → is_some (consume_oauth_state hash state verifier provider nonce now start).0 ≡ true
      → Requests hash (consume_oauth_state hash state verifier provider nonce now start).1 after
      → consume_oauth_state hash state later_verifier later_provider later_nonce later after
        ≡ (none, after)
  consume_oauth_state_once state verifier later_verifier provider later_provider nonce later_nonce
        now later start after u won requests =
      let v =
        Requests-IsUsed (hash state) _ after requests
          (consumed-IsUsed state verifier provider nonce now start u won) in
      consume_rule hash (λ (r : Option OAuthState × List OAuthState). r ≡ (none, after)) state
        later_verifier later_provider later_nonce later after refl
        (λ s found ok _.
          let spent =
            select_shared (has_state (hash state)) is_used after s found (v.unique (hash state))
              v.done in
          absurd (ground (arith, ok, spent)))
