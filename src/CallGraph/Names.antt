-- ===== src/CallGraph/Names.antt =====
-- The operations on dotted names that backend/app/indexing/call_graph.py uses, on texts.
use Prim.Native.Char.{Char, code}
use Prim.Native.String.{◌++◌ as append}
use code_naut.Prelude.{
  ℕ, suc, ◌≤◌, String, Bool, true, false, not, ◌&&◌, ◌||◌, ◌==◌, ◌≡◌, refl, Option, none, some,
  List, [], ◌∷◌, arith, keep_if, Bool-cases, inl, inr, if◌then◌else◌,
}

abbrev pub is_dot : Char → Bool
is_dot c = code c == 46

abbrev pub has_dot : String → Bool
has_dot String.[] = false
has_dot (String.◌∷◌ c s) = is_dot c || has_dot s

-- `rpartition(".")[0]`
abbrev pub before_last_dot : String → String
before_last_dot String.[] = String.[]
before_last_dot (String.◌∷◌ c s) =
    let rest = before_last_dot s in if has_dot s then String.◌∷◌ c rest else String.[]

abbrev pub is_blank : String → Bool
is_blank String.[] = true
is_blank (String.◌∷◌ _ _) = false

abbrev pub onto_first_part : Char → List String → List String
onto_first_part c [] = String.◌∷◌ c String.[] ∷ []
onto_first_part c (part ∷ parts) = String.◌∷◌ c part ∷ parts

-- `split(".")`
abbrev pub split_dot : String → List String
split_dot String.[] = String.[] ∷ []
split_dot (String.◌∷◌ c s) =
    let rest = split_dot s in if is_dot c then String.[] ∷ rest else onto_first_part c rest

abbrev pub join_rest : List String → String
join_rest [] = ""
join_rest (part ∷ parts) = append "." (append part (join_rest parts))

-- `".".join`
abbrev pub join_dot : List String → String
join_dot [] = ""
join_dot (part ∷ parts) = append part (join_rest parts)

-- `filter(None, …)`
abbrev pub nonblank : List String → List String
nonblank = keep_if (λ s. not (is_blank s))

abbrev pub lstrip_dots : String → String
lstrip_dots String.[] = String.[]
lstrip_dots (String.◌∷◌ c s) = let rest = lstrip_dots s in if is_dot c then rest else String.◌∷◌ c s

abbrev pub rstrip_dots : String → String
rstrip_dots String.[] = String.[]
rstrip_dots (String.◌∷◌ c s) =
    let rest = rstrip_dots s in if is_dot c && is_blank rest then String.[] else String.◌∷◌ c rest

-- `strip(".")`
abbrev pub strip_dots : String → String
strip_dots s = lstrip_dots (rstrip_dots s)

abbrev pub starts_with : String → String → Bool
starts_with String.[] s = true
starts_with (String.◌∷◌ c prefix) String.[] = false
starts_with (String.◌∷◌ c prefix) (String.◌∷◌ d s) =
    let rest = starts_with prefix s in if code c == code d then rest else false

abbrev pub or_text : Option String → String → String
or_text none d = d
or_text (some s) d = if is_blank s then d else s

-- `parts[-1]`, of a list that starts with this part.
abbrev pub last_from : String → List String → String
last_from part [] = part
last_from part (next ∷ parts) = last_from next parts

abbrev pub size : String → ℕ
size String.[] = 0
size (String.◌∷◌ _ s) = suc (size s)

pub before_last_dot-shorter :
    (s : String) → is_blank s ≡ false → suc (size (before_last_dot s)) ≤ size s
before_last_dot-shorter String.[] h = absurd (ground (arith, h))
before_last_dot-shorter (String.◌∷◌ c s) h = elim (Bool-cases (has_dot s)) [
  | inl e ↦ let rest = before_last_dot-shorter s (filled s e) in rw e (omega (arith, rest))
  | inr e ↦ rw e (omega arith)
]
  where
    filled : (t : String) → has_dot t ≡ true → is_blank t ≡ false
    filled String.[] e = absurd (ground (arith, e))
    filled (String.◌∷◌ d t) e = refl
