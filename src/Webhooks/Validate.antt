-- ===== src/Webhooks/Validate.antt =====
-- What a webhook request must pass before the tables are read: the signature, the patterns of the headers
-- and _validate_supported_payload of backend/app/services/webhooks.py.
use Prim.Native.String.{◌++◌ as append}
use code_naut.Prelude.{
  ℕ, String, Bool, true, false, not, ◌&&◌, ◌||◌, ◌==◌, Option, none, some, List, [], ◌∷◌, leb, any,
  all, length, is_some, is_none, str_eq, if◌then◌else◌,
}
use code_naut.Freshness.Plan.{codes}
use code_naut.Webhooks.Model.{Payload}

abbrev pub in_range : ℕ → ℕ → ℕ → Bool
in_range low high c = leb low c && leb c high

abbrev pub is_lower : ℕ → Bool
is_lower c = in_range 97 122 c

abbrev pub is_digit : ℕ → Bool
is_digit c = in_range 48 57 c

-- fullmatch of a class of characters, from one to so many of them.
abbrev pub is_run_of : (ℕ → Bool) → ℕ → String → Bool
is_run_of is_in most s =
    let cs = codes s in leb 1 (length cs) && (leb (length cs) most && all is_in cs)

-- DELIVERY_PATTERN and EVENT_PATTERN
abbrev pub is_delivery_id : String → Bool
is_delivery_id = is_run_of (λ c. in_range 65 90 c || (is_lower c || (is_digit c || c == 45))) 255

abbrev pub is_event_name : String → Bool
is_event_name = is_run_of (λ c. is_lower c || c == 95) 64

abbrev pub after_prefix : List ℕ → List ℕ → Option (List ℕ)
after_prefix [] cs = some cs
after_prefix (x ∷ xs) [] = none
after_prefix (x ∷ xs) (c ∷ cs) = let rest = after_prefix xs cs in if x == c then rest else none

abbrev pub is_hex64 : Option (List ℕ) → Bool
is_hex64 none = false
is_hex64 (some cs) = length cs == 64 && all (λ c. in_range 97 102 c || is_digit c) cs

-- SIGNATURE_PATTERN
abbrev pub is_signature : String → Bool
is_signature s = is_hex64 (after_prefix (codes "sha256=") (codes s))

-- verify_signature, over the hexadecimal HMAC-SHA256 under the secret.
unfoldable pub verify_signature : (String → String) → String → Option String → Bool
verify_signature hexdigest body none = false
verify_signature hexdigest body (some signature) =
    is_signature signature && str_eq (append "sha256=" (hexdigest body)) signature

abbrev pub is_one_of : List String → String → Bool
is_one_of names s = any (str_eq s) names

abbrev pub supported_events : List String
supported_events = "installation" ∷ "installation_repositories" ∷ "push" ∷ "repository" ∷ []

abbrev pub action_in : List String → Option String → Bool
action_in names none = false
action_in names (some a) = is_one_of names a

abbrev pub installation_actions : List String
installation_actions = "created" ∷ "deleted" ∷ "suspend" ∷ "unsuspend" ∷ []

abbrev pub repository_actions : List String
repository_actions =
    "archived" ∷ "deleted" ∷ "edited" ∷ "privatized" ∷ "publicized" ∷ "renamed" ∷ "unarchived" ∷ []

abbrev pub is_any : {A : Type 0} → List A → Bool
is_any [] = false
is_any (_ ∷ _) = true

-- `ref`, `before` and `after`
abbrev pub has_commits : Payload → Bool
has_commits p = is_some p.ref || (is_some p.before || is_some p.after)

abbrev pub has_lists : Payload → Bool
has_lists p = is_any p.repositories_added || is_any p.repositories_removed

abbrev pub bad_installation : Payload → Bool
bad_installation p =
    not (action_in installation_actions p.action)
    || (is_some p.repository || (has_lists p || has_commits p))

abbrev pub bad_repositories : Payload → Bool
bad_repositories p =
    let added = action_in ("added" ∷ []) p.action in
    let removed = action_in ("removed" ∷ []) p.action in
    not (added || removed)
    || (is_some p.repository
        || (has_commits p
            || ((added && (not (is_any p.repositories_added) || is_any p.repositories_removed))
                || (removed
                    && (not (is_any p.repositories_removed) || is_any p.repositories_added)))))

abbrev pub bad_push : Payload → Bool
bad_push p =
    is_some p.action
    || (is_none p.repository
        || (is_none p.ref || (is_none p.before || (is_none p.after || has_lists p))))

abbrev pub bad_repository : Payload → Bool
bad_repository p =
    not (action_in repository_actions p.action)
    || (is_none p.repository || (has_lists p || has_commits p))

-- Whether _validate_supported_payload lets the payload through.
unfoldable pub validate_supported_payload : String → Payload → Bool
validate_supported_payload event p =
    if not (is_one_of supported_events event)
    then true
    else (if is_none p.installation
        then false
        else (if str_eq event "installation"
            then not (bad_installation p)
            else (if str_eq event "installation_repositories"
                then not (bad_repositories p)
                else (if str_eq event "push" then not (bad_push p) else not (bad_repository p)))))
