-- ===== src/Sessions/Examples.antt =====
-- The theorems on sessions at concrete rows, and runs of the code.
use code_naut.Prelude.{
  ℕ, zero, suc, ap, ◌≤◌, String, Bool, true, ◌≡◌, refl, Option, none, some, List, [], ◌∷◌, arith,
  count_if, if◌then◌else◌, is_some,
}
use Prim.Native.String.{◌++◌ as append}
use code_naut.Prelude.Table.{select, update_first, update_where}
use code_naut.Sessions.Model.{
  RefreshToken, FreshToken, AuthProvider, OAuthFlow, OAuthState, has_hash, live_in,
}
use code_naut.Sessions.Tokens.{reused, rotated, rotate_refresh_token, logout}
use code_naut.Sessions.Steps.{Step, rotates, here, next}
use code_naut.Sessions.Families.{IsRotating, Reach-IsRotating}
use code_naut.Sessions.Replay.{IsEnded}
use code_naut.Sessions.Reuse.{is_rotated, replay_reused, Reach-IsEnded}
use code_naut.Sessions.Refines.{Move, view, Request, rotate}
use code_naut.Sessions.Moves.{serve, serve-Move}
use code_naut.Sessions.OAuth.{consume_oauth_state, has_state, used}
use code_naut.Sessions.OAuth
use code_naut.Sessions.Once.{Consumed, consume_oauth_state_sound, consume_oauth_state_once}
use code_naut.Sessions.Access.{
  Claims, DecodeOptions, Decodes, Accepted, passes, decode_access_token, issue_access_token,
  claims_of, decode-issue, decode_access_token_sound,
}

abbrev hash : String → String
hash raw = append "#" raw

abbrev fresh : String → ℕ → FreshToken
fresh raw id = record { raw = raw; id = id }

abbrev first_token : RefreshToken
first_token = record {
  id = 1;
  family_id = 7;
  user_id = 5;
  token_hash = "#a";
  parent_token_id = none;
  expires_at = 100;
  used_at = none;
  revoked_at = none;
  revocation_reason = none;
}

abbrev start : List RefreshToken
start = first_token ∷ []

start-IsRotating : IsRotating start
start-IsRotating = record { unique = λ h. ground arith; one_live = λ f. ground arith }

abbrev users : List ℕ
users = 5 ∷ []

abbrev after_rotation : List RefreshToken
after_rotation = (rotate_refresh_token hash 50 users "a" (fresh "b" 2) 10 start).1

rotated_once : (rotate_refresh_token hash 50 users "a" (fresh "b" 2) 10 start).0 ≡ rotated 5 "b"
unfolding rotate_refresh_token select update_first
rotated_once = refl

one_live_after : count_if (live_in 7) after_rotation ≡ 1
unfolding rotate_refresh_token select update_first
one_live_after = refl

first-Step : Step hash 50 start after_rotation
first-Step = rotates users "a" (fresh "b" 2) 10 refl

Reach-IsRotating_example : IsRotating after_rotation
Reach-IsRotating_example =
    Reach-IsRotating hash 50 start after_rotation start-IsRotating (next here first-Step)

abbrev rotation : Request
rotation = rotate users "a" (fresh "b" 2) 10

serve-Move_example :
    Move hash (view start) (view after_rotation) rotation (serve hash 50 rotation start).0
serve-Move_example = serve-Move hash 50 rotation start start-IsRotating refl

rotation_won :
    (◌≡◌ {A = Bool}
      (is_rotated (rotate_refresh_token hash 50 users "a" (fresh "b" 2) 10 start).0)
      true)
unfolding rotate_refresh_token select update_first
rotation_won = refl

replay_reused_example :
    let r = rotate_refresh_token hash 50 users "a" (fresh "c" 3) 20 after_rotation in
    (r.0 ≡ reused)
    × ((t : RefreshToken) × (select (has_hash "#a") after_rotation ≡ some t)
        × IsEnded t.family_id r.1)
replay_reused_example =
    replay_reused hash 50 users users "a" (fresh "b" 2) (fresh "c" 3) 10 20 start after_rotation
      start-IsRotating rotation_won here

abbrev logged_out : List RefreshToken
logged_out = logout hash 50 (some "a") 30 start

logged_out-IsEnded : IsEnded 7 logged_out
unfolding logout select update_where
logged_out-IsEnded = record { known = refl; none_live = refl }

Reach-IsEnded_example :
    IsEnded 7 (rotate_refresh_token hash 50 users "a" (fresh "b" 2) 40 logged_out).1
Reach-IsEnded_example =
    Reach-IsEnded hash 50 7 logged_out _ logged_out-IsEnded
      (next here (rotates users "a" (fresh "b" 2) 40 refl))

abbrev state_row : OAuthState
state_row = record {
  state_hash = "#s";
  code_verifier_hash = "#v";
  provider = AuthProvider.google;
  flow = OAuthFlow.sign_in;
  nonce_hash = some "#n";
  intended_user_id = none;
  expires_at = 100;
  used_at = none;
}

abbrev states : List OAuthState
states = state_row ∷ []

states_unique : (k : String) → count_if (has_state k) states ≤ 1
states_unique k = ground arith

accepted :
    (consume_oauth_state hash "s" "v" AuthProvider.google (some "n") 50 states).0
    ≡ some (used 50 state_row)
unfolding consume_oauth_state select
accepted = refl

consume_oauth_state_sound_example :
    (s : OAuthState) × Consumed hash "s" "v" AuthProvider.google (some "n") 50 states s
    × (used 50 state_row ≡ used 50 s)
consume_oauth_state_sound_example =
    consume_oauth_state_sound hash "s" "v" AuthProvider.google (some "n") 50 states
      (used 50 state_row) accepted

abbrev after_callback : List OAuthState
after_callback = (consume_oauth_state hash "s" "v" AuthProvider.google (some "n") 50 states).1

callback_won :
    is_some (consume_oauth_state hash "s" "v" AuthProvider.google (some "n") 50 states).0 ≡ true
unfolding consume_oauth_state select
callback_won = refl

consume_oauth_state_once_example :
    consume_oauth_state hash "s" "v" AuthProvider.google (some "n") 60 after_callback
    ≡ (none, after_callback)
consume_oauth_state_once_example =
    consume_oauth_state_once hash "s" "v" "v" AuthProvider.google AuthProvider.google (some "n")
      (some "n") 50 60 states after_callback states_unique callback_won OAuth.here

-- A UUID as that many letters, and a signature that hides nothing.
abbrev show_uuid : ℕ → String
show_uuid zero = String.[]
show_uuid (suc n) = String.◌∷◌ "x" (show_uuid n)

abbrev letters : String → ℕ
letters String.[] = 0
letters (String.◌∷◌ c s) = suc (letters s)

abbrev parse_uuid : String → Option ℕ
parse_uuid s = some (letters s)

letters-show_uuid : (u : ℕ) → letters (show_uuid u) ≡ u
letters-show_uuid zero = refl
letters-show_uuid (suc n) = ap suc (letters-show_uuid n)

-- Tokens that carry their algorithm and claims in the open.
abbrev encode : String → Claims → String × Claims
encode algorithm c = (algorithm, c)

abbrev decode : DecodeOptions → ℕ → String × Claims → Option Claims
decode o now (algorithm, c) = if passes o now algorithm c then some c else none

decode-Decodes : Decodes encode decode
decode-Decodes = record { decodes = λ o now algorithm c. refl }

decode-issue_example :
    decode_access_token decode parse_uuid 60
      (issue_access_token encode show_uuid 900 5 "j" 50).value
    ≡ some 5
decode-issue_example =
    decode-issue encode decode show_uuid parse_uuid 900 5 50 60 "j" decode-Decodes
      (λ u. ap (λ n. some n) (letters-show_uuid u))

decode_access_token_sound_example :
    Accepted parse_uuid 60 "HS256" (claims_of encode show_uuid 900 5 "j" 50) 5
unfolding issue_access_token
decode_access_token_sound_example =
    decode_access_token_sound encode decode parse_uuid 60 "HS256"
      (claims_of encode show_uuid 900 5 "j" 50) 5 decode-Decodes decode-issue_example
