-- ===== src/Sessions/Refines.antt =====
-- The refresh tokens of backend/app/services/auth.py as their specification: the row that each hash
-- names, and for each family the hashes that are good for a rotation.
use code_naut.Prelude.{
  ℕ, String, true, false, ◌≡◌, Option, none, some, List, [], ◌∷◌, ◌==◌, any, map, keep_if, str_eq,
  leb,
}
use mathlib.Core.Option.{map as map_option}
use code_naut.Prelude.Table.{select}
use code_naut.Sessions.Model.{RefreshToken, FreshToken, has_hash, live_in}
use code_naut.Sessions.Tokens.{Rotation, rotated, invalid, reused, conflict}

pub record Owner : Type 0 where
  pub family : ℕ
  pub user : ℕ
  pub expires_at : ℕ

pub record View : Type 0 where
  pub owner : String → Option Owner
  pub good : ℕ → List String

abbrev pub owner_of : RefreshToken → Owner
owner_of t = record { family = t.family_id; user = t.user_id; expires_at = t.expires_at }

abbrev pub view : List RefreshToken → View
view tokens = record {
  owner = λ h. map_option owner_of (select (has_hash h) tokens);
  good = λ f. map (λ t. t.token_hash) (keep_if (live_in f) tokens);
}

-- A request with what it draws: the session of a sign-in, a rotation among the users there are, or a
-- logout.
pub data Request : Type 0 where
  sign_in : (user family : ℕ) (fresh : FreshToken) (now : ℕ) → Request
  rotate : (users : List ℕ) (raw : String) (fresh : FreshToken) (now : ℕ) → Request
  log_out : (raw : Option String) (now : ℕ) → Request

-- All other families keep their good hashes.
abbrev pub Others : ℕ → View → View → Type 0
Others f v w = (g : ℕ) → (f == g) ≡ false → w.good g ≡ v.good g

abbrev pub Same : View → View → Type 0
Same v w = (g : ℕ) → w.good g ≡ v.good g

module _ (hash : String → String) where
  -- What each request may do, with its answer.
  pub data Move (v w : View) : Request → Option Rotation → Type 0 where
    opens :
        (user f : ℕ) (fresh : FreshToken) (now : ℕ)
        → v.good f ≡ []
        → w.good f ≡ hash fresh.raw ∷ []
        → Others f v w
        → Move v w (sign_in user f fresh now) (some (rotated user fresh.raw))
    clashes :
        (user f : ℕ) (fresh : FreshToken) (now : ℕ) (o : Owner)
        → v.owner (hash fresh.raw) ≡ some o
        → Same v w
        → Move v w (sign_in user f fresh now) (some conflict)
    advances :
        (users : List ℕ) (raw : String) (fresh : FreshToken) (now : ℕ) (o : Owner)
        → v.owner (hash raw) ≡ some o
        → leb o.expires_at now ≡ false
        → any (λ u. u == o.user) users ≡ true
        → v.good o.family ≡ hash raw ∷ []
        → w.good o.family ≡ hash fresh.raw ∷ []
        → Others o.family v w
        → Move v w (rotate users raw fresh now) (some (rotated o.user fresh.raw))
    collides :
        (users : List ℕ) (raw : String) (fresh : FreshToken) (now : ℕ) (o : Owner)
        → v.owner (hash fresh.raw) ≡ some o
        → Same v w
        → Move v w (rotate users raw fresh now) (some conflict)
    detects :
        (users : List ℕ) (raw : String) (fresh : FreshToken) (now : ℕ) (o : Owner)
        → v.owner (hash raw) ≡ some o
        → any (λ h. str_eq h (hash raw)) (v.good o.family) ≡ false
        → w.good o.family ≡ []
        → Others o.family v w
        → Move v w (rotate users raw fresh now) (some reused)
    expires :
        (users : List ℕ) (raw : String) (fresh : FreshToken) (now : ℕ) (o : Owner)
        → v.owner (hash raw) ≡ some o
        → leb o.expires_at now ≡ true
        → v.good o.family ≡ hash raw ∷ []
        → w.good o.family ≡ []
        → Others o.family v w
        → Move v w (rotate users raw fresh now) (some invalid)
    unknown :
        (users : List ℕ) (raw : String) (fresh : FreshToken) (now : ℕ)
        → v.owner (hash raw) ≡ none
        → Same v w
        → Move v w (rotate users raw fresh now) (some invalid)
    no_user :
        (users : List ℕ) (raw : String) (fresh : FreshToken) (now : ℕ) (o : Owner)
        → v.owner (hash raw) ≡ some o
        → leb o.expires_at now ≡ false
        → any (λ u. u == o.user) users ≡ false
        → v.good o.family ≡ hash raw ∷ []
        → Same v w
        → Move v w (rotate users raw fresh now) (some invalid)
    closes :
        (raw : String) (now : ℕ) (o : Owner)
        → v.owner (hash raw) ≡ some o
        → w.good o.family ≡ []
        → Others o.family v w
        → Move v w (log_out (some raw) now) none
    strays :
        (raw : String) (now : ℕ)
        → v.owner (hash raw) ≡ none
        → Same v w
        → Move v w (log_out (some raw) now) none
    idles : (now : ℕ) → Same v w → Move v w (log_out none now) none
