-- ===== src/Sessions/Access.antt =====
-- Access tokens of TokenService in backend/app/auth/tokens.py. jwt.encode and jwt.decode with the
-- access secret are arguments, on signed tokens of any type T, and so are str and the parser of a UUID;
-- decode has the time, and is none where it raises. Times are whole seconds.
use code_naut.Prelude.{
  ℕ, ◌+◌, ◌≤◌, ◌<◌, String, Bool, true, ◌&&◌, ◌||◌, ◌≡◌, refl, ap, inl, inr, Option, none, some,
  List, [], ◌∷◌, str_eq, opt_str_eq, is_some, not, any, leb, ltb, arith, Bool-cases, eq_iff,
  if◌then◌else◌,
}
use code_naut.Prelude.Table.{if_found}

-- A claim that the token does not carry is none; kind is `type`.
pub record Claims : Type 0 where
  pub aud : Option String
  pub exp : Option ℕ
  pub iat : Option ℕ
  pub iss : Option String
  pub jti : Option String
  pub sub : Option String
  pub kind : Option String

pub record AccessToken (T : Type 0) : Type 0 where
  pub value : T
  pub expires_in : ℕ

-- The keyword arguments of jwt.decode.
pub record DecodeOptions : Type 0 where
  pub algorithms : List String
  pub audience : String
  pub issuer : String
  pub require : List String

abbrev pub access_token_algorithm : String
access_token_algorithm = "HS256"

abbrev pub access_token_audience : String
access_token_audience = "repolume-api"

abbrev pub access_token_issuer : String
access_token_issuer = "repolume"

abbrev pub decode_options : DecodeOptions
decode_options = record {
  algorithms = access_token_algorithm ∷ [];
  audience = access_token_audience;
  issuer = access_token_issuer;
  require = "aud" ∷ "exp" ∷ "iat" ∷ "iss" ∷ "jti" ∷ "sub" ∷ "type" ∷ [];
}

module _ {T : Type 0} (encode : String → Claims → T) (show_uuid : ℕ → String) (access_ttl : ℕ) where
  abbrev pub claims_of : ℕ → String → ℕ → Claims
  claims_of user_id jti issued_at = record {
    aud = some access_token_audience;
    exp = some (issued_at + access_ttl);
    iat = some issued_at;
    iss = some access_token_issuer;
    jti = some jti;
    sub = some (show_uuid user_id);
    kind = some "access";
  }

  unfoldable pub issue_access_token : ℕ → String → ℕ → AccessToken T
  issue_access_token user_id jti issued_at = record {
    value = encode access_token_algorithm (claims_of user_id jti issued_at);
    expires_in = access_ttl;
  }

abbrev pub user_of : (String → Option ℕ) → Option Claims → Option ℕ
user_of parse_uuid none = none
user_of parse_uuid (some c) =
    if opt_str_eq c.kind "access" then if_found c.sub none parse_uuid else none

-- An AccessTokenError is none.
unfoldable pub decode_access_token :
    {T : Type 0} → (DecodeOptions → ℕ → T → Option Claims) → (String → Option ℕ) → ℕ → T → Option ℕ
decode_access_token decode parse_uuid now value =
    user_of parse_uuid (decode decode_options now value)

-- The claim of this name is there.
abbrev pub carries : Claims → String → Bool
carries c name =
    (str_eq name "aud" && is_some c.aud)
    || (str_eq name "exp" && is_some c.exp)
    || (str_eq name "iat" && is_some c.iat)
    || (str_eq name "iss" && is_some c.iss)
    || (str_eq name "jti" && is_some c.jti)
    || (str_eq name "sub" && is_some c.sub)
    || (str_eq name "type" && is_some c.kind)

abbrev pub is_begun : Option ℕ → ℕ → Bool
is_begun none now = true
is_begun (some iat) now = leb iat now

abbrev pub is_unexpired : Option ℕ → ℕ → Bool
is_unexpired none now = true
is_unexpired (some exp) now = ltb now exp

-- The checks of PyJWT on a token with a good signature: its algorithm is one of those asked for, it
-- carries the required claims, its audience and issuer are those asked for, its time of issue, where
-- it has one, has come, and its expiry, where it has one, has not.
abbrev pub passes : DecodeOptions → ℕ → String → Claims → Bool
passes o now algorithm c =
    any (str_eq algorithm) o.algorithms
    && (not (any (λ name. not (carries c name)) o.require)
        && (opt_str_eq c.aud o.audience
            && (opt_str_eq c.iss o.issuer && (is_begun c.iat now && is_unexpired c.exp now))))

-- jwt.decode gives back what jwt.encode signed with the same secret, where its checks pass, and raises
-- where one does not.
pub record Decodes {T : Type 0} (encode : String → Claims → T)
    (decode : DecodeOptions → ℕ → T → Option Claims) : Type 0 where
  pub decodes :
      (o : DecodeOptions) (now : ℕ) (algorithm : String) (c : Claims)
      → decode o now (encode algorithm c) ≡ (if passes o now algorithm c then some c else none)

-- Where the decoder reads what the encoder signed and a UUID is parsed from its text, a token names the
-- user it was issued to from its issue until its time to live has passed, and is refused before and
-- after.
pub decode-issue :
    {T : Type 0} (encode : String → Claims → T) (decode : DecodeOptions → ℕ → T → Option Claims)
    (show_uuid : ℕ → String) (parse_uuid : String → Option ℕ) (access_ttl user_id issued_at now : ℕ)
    (jti : String)
    → Decodes encode decode
    → ((u : ℕ) → parse_uuid (show_uuid u) ≡ some u)
    → decode_access_token decode parse_uuid now
        (issue_access_token encode show_uuid access_ttl user_id jti issued_at).value
      ≡ (if leb issued_at now && ltb now (issued_at + access_ttl) then some user_id else none)
unfolding decode_access_token issue_access_token
decode-issue encode decode show_uuid parse_uuid access_ttl user_id issued_at now jti law parsed =
    let c = claims_of encode show_uuid access_ttl user_id jti issued_at in
    let read = law.decodes decode_options now access_token_algorithm c in
    elim (Bool-cases (leb issued_at now && ltb now (issued_at + access_ttl))) [
      | inl e ↦ rw (read, e) (parsed user_id)
      | inr e ↦ rw (read, e) refl
    ]

-- What a token that is accepted has shown.
pub record Accepted (parse_uuid : String → Option ℕ) (now : ℕ) (algorithm : String) (c : Claims)
    (user_id : ℕ) : Type 0 where
  pub signed_with : algorithm ≡ "HS256"
  pub audience : c.aud ≡ some "repolume-api"
  pub issuer : c.iss ≡ some "repolume"
  pub access_kind : c.kind ≡ some "access"
  pub identified : is_some c.jti ≡ true
  pub begun : (iat : ℕ) × (c.iat ≡ some iat) × (iat ≤ now)
  pub unexpired : (exp : ℕ) × (c.exp ≡ some exp) × (now < exp)
  pub subject : (sub : String) × (c.sub ≡ some sub) × (parse_uuid sub ≡ some user_id)

opt_str_eq-some : (o : Option String) (s : String) → opt_str_eq o s ≡ true → o ≡ some s
opt_str_eq-some none s h = absurd (ground (arith, h))
opt_str_eq-some (some x) s h = ap some ((eq_iff x s).0 h)

begun-some :
    (o : Option ℕ) (now : ℕ)
    → is_some o ≡ true
    → is_begun o now ≡ true
    → (iat : ℕ) × (o ≡ some iat) × (iat ≤ now)
begun-some none now there h = absurd (ground (arith, there))
begun-some (some iat) now there h = (iat, refl, ground (arith, h))

unexpired-some :
    (o : Option ℕ) (now : ℕ)
    → is_some o ≡ true
    → is_unexpired o now ≡ true
    → (exp : ℕ) × (o ≡ some exp) × (now < exp)
unexpired-some none now there h = absurd (ground (arith, there))
unexpired-some (some exp) now there h = (exp, refl, ground (arith, h))

subject-some :
    (parse_uuid : String → Option ℕ) (o : Option String) (user_id : ℕ)
    → if_found o none parse_uuid ≡ some user_id
    → (sub : String) × (o ≡ some sub) × (parse_uuid sub ≡ some user_id)
subject-some parse_uuid none user_id h = absurd (ground (arith, h))
subject-some parse_uuid (some sub) user_id h = (sub, refl, h)

passes-Accepted :
    (parse_uuid : String → Option ℕ) (now : ℕ) (algorithm : String) (c : Claims) (user_id : ℕ)
    → passes decode_options now algorithm c ≡ true
    → opt_str_eq c.kind "access" ≡ true
    → if_found c.sub none parse_uuid ≡ some user_id
    → Accepted parse_uuid now algorithm c user_id
passes-Accepted parse_uuid now algorithm c user_id ok kind named = record {
  signed_with = (eq_iff algorithm "HS256").0 (ground (arith, ok));
  audience = opt_str_eq-some c.aud _ (ground (arith, ok));
  issuer = opt_str_eq-some c.iss _ (ground (arith, ok));
  access_kind = opt_str_eq-some c.kind _ kind;
  identified = ground (arith, ok);
  begun = begun-some c.iat now (ground (arith, ok)) (ground (arith, ok));
  unexpired = unexpired-some c.exp now (ground (arith, ok)) (ground (arith, ok));
  subject = subject-some parse_uuid c.sub user_id named;
}

-- Of all tokens signed with the secret, with any algorithm and any claims, one that is accepted for a
-- user was signed with HS256 for this audience by this issuer, as an access token, carries an id, a
-- time of issue that has come and an expiry that has not, and its subject is the UUID of that user.
pub decode_access_token_sound :
    {T : Type 0} (encode : String → Claims → T) (decode : DecodeOptions → ℕ → T → Option Claims)
    (parse_uuid : String → Option ℕ) (now : ℕ) (algorithm : String) (c : Claims) (user_id : ℕ)
    → Decodes encode decode
    → decode_access_token decode parse_uuid now (encode algorithm c) ≡ some user_id
    → Accepted parse_uuid now algorithm c user_id
unfolding decode_access_token
decode_access_token_sound encode decode parse_uuid now algorithm c user_id law h =
    let read = law.decodes decode_options now algorithm c in
    elim (Bool-cases (passes decode_options now algorithm c)) [
      | inl ok ↦ elim (Bool-cases (opt_str_eq c.kind "access")) [
        | inl kind ↦
            passes-Accepted parse_uuid now algorithm c user_id ok kind (rw (read, ok, kind) at h)
        | inr other ↦ absurd (let k = rw (read, ok, other) at h in ground (arith, k))
      ]
      | inr bad ↦ absurd (let k = rw (read, bad) at h in ground (arith, k))
    ]
