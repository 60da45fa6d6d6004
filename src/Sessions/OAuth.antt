-- ===== src/Sessions/OAuth.antt =====
-- One-time OAuth states: start_oauth and _consume_oauth_state of backend/app/services/auth.py.
-- `hash` is hash_opaque_token and compare_digest is equality. The unique index on state_hash makes an
-- INSERT fail. A failure leaves the table as it was.
use mathlib.Core.Option.{map as map_option}
use code_naut.Prelude.{
  ℕ, ◌+◌, String, Bool, true, false, not, ◌||◌, ◌≡◌, Option, none, some, List, ◌∷◌, leb, any, ◌==◌,
  is_some, str_eq, if◌then◌else◌,
}
use code_naut.Prelude.Table.{select, update_first, if_found, if_found_rule, if_rule}
use code_naut.Sessions.Model.{AuthProvider, OAuthFlow, OAuthState}

abbrev pub same_provider : AuthProvider → AuthProvider → Bool
same_provider AuthProvider.github AuthProvider.github = true
same_provider AuthProvider.google AuthProvider.google = true
same_provider AuthProvider.github AuthProvider.google = false
same_provider AuthProvider.google AuthProvider.github = false

abbrev pub has_state : String → OAuthState → Bool
has_state h s = str_eq s.state_hash h

abbrev pub is_empty_text : String → Bool
is_empty_text s = str_eq s ""

-- A nonce is given exactly if the state has one, and then it is the state's.
abbrev pub nonce_matches : (String → String) → Option String → Option String → Bool
nonce_matches hash none none = true
nonce_matches hash none (some nonce) = false
nonce_matches hash (some expected) none = false
nonce_matches hash (some expected) (some nonce) = str_eq expected (hash nonce)

abbrev pub used : ℕ → OAuthState → OAuthState
used now s = record s { used_at = some now }

-- A user id that is to be linked must exist.
abbrev pub is_missing : List ℕ → Option ℕ → Bool
is_missing users none = false
is_missing users (some u) = not (any (λ v. v == u) users)

module _ (hash : String → String) where
  abbrev pub is_refused : AuthProvider → String → ℕ → OAuthState → Bool
  is_refused provider code_verifier now s =
      not (same_provider s.provider provider)
      || (is_some s.used_at
          || (leb s.expires_at now || not (str_eq s.code_verifier_hash (hash code_verifier))))

  unfoldable pub consume_oauth_state :
      String
      → String
      → AuthProvider
      → Option String
      → ℕ
      → List OAuthState
      → Option OAuthState × List OAuthState
  consume_oauth_state state code_verifier provider nonce now states =
      if is_empty_text state || is_empty_text code_verifier
      then (none, states)
      else if_found (select (has_state (hash state)) states) (none, states)
          (λ s.
            if is_refused provider code_verifier now s
            then (none, states)
            else (if nonce_matches hash s.nonce_hash nonce
                then (some (used now s), update_first (has_state (hash state)) (used now) states)
                else (none, states)))

  -- The row that start_oauth inserts, for drawn credentials.
  abbrev pub new_state :
      ℕ → AuthProvider → Option ℕ → String → String → Option String → ℕ → OAuthState
  new_state state_ttl provider linking_user_id state code_verifier nonce now = record {
    state_hash = hash state;
    code_verifier_hash = hash code_verifier;
    provider = provider;
    flow = if is_some linking_user_id then OAuthFlow.link else OAuthFlow.sign_in;
    nonce_hash = map_option hash nonce;
    intended_user_id = linking_user_id;
    expires_at = now + state_ttl;
    used_at = none;
  }

  unfoldable pub start_oauth :
      List ℕ
      → ℕ
      → AuthProvider
      → Option ℕ
      → String
      → String
      → Option String
      → ℕ
      → List OAuthState
      → Option OAuthState × List OAuthState
  start_oauth users state_ttl provider linking_user_id state code_verifier nonce now states =
      let row = new_state state_ttl provider linking_user_id state code_verifier nonce now in
      if is_missing users linking_user_id || any (has_state row.state_hash) states
      then (none, states)
      else (some row, row ∷ states)

  -- One request on the states.
  pub data Request (before after : List OAuthState) : Type 0 where
    starts :
        (users : List ℕ) (state_ttl : ℕ) (provider : AuthProvider) (linking_user_id : Option ℕ)
        (state code_verifier : String) (nonce : Option String) (now : ℕ)
        → after
          ≡ (start_oauth users state_ttl provider linking_user_id state code_verifier nonce now
              before).1
        → Request before after
    consumes :
        (state code_verifier : String) (provider : AuthProvider) (nonce : Option String) (now : ℕ)
        → after ≡ (consume_oauth_state state code_verifier provider nonce now before).1
        → Request before after

  pub data Requests (start : List OAuthState) : List OAuthState → Type 0 where
    here : Requests start start
    next :
        {mid after : List OAuthState}
        → Requests start mid
        → Request mid after
        → Requests start after

  pub consume_rule :
      (P : Option OAuthState × List OAuthState → Type 0) (state code_verifier : String)
      (provider : AuthProvider) (nonce : Option String) (now : ℕ) (states : List OAuthState)
      → P (none, states)
      → ((s : OAuthState)
          → select (has_state (hash state)) states ≡ some s
          → is_refused provider code_verifier now s ≡ false
          → nonce_matches hash s.nonce_hash nonce ≡ true
          → P (some (used now s), update_first (has_state (hash state)) (used now) states))
      → P (consume_oauth_state state code_verifier provider nonce now states)
  unfolding consume_oauth_state
  consume_rule P state code_verifier provider nonce now states fails wins =
      if_rule P (is_empty_text state || is_empty_text code_verifier) _ _ (λ _. fails)
        (λ _.
          if_found_rule P (select (has_state (hash state)) states) (none, states) _ (λ _. fails)
            (λ s found.
              if_rule P (is_refused provider code_verifier now s) _ _ (λ _. fails)
                (λ ok.
                  if_rule P (nonce_matches hash s.nonce_hash nonce) _ _
                    (λ match. wins s found ok match) (λ _. fails))))
