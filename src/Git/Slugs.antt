-- ===== src/Git/Slugs.antt =====
-- internal/domain/git/domain.go: `generateSlug` and `slugRegex`. A text is worked on as the list of its
-- characters; `strings.ToLower` is a parameter, and the other functions of `strings` are written out.
use Prim.Native.Char.{Char, code}
use uniedit_server.Common.{
  ℕ, zero, suc, leb, nat_eq, ◌&&◌, ◌||◌, if◌then◌else◌, Bool, true, false, String, List, [], ◌∷◌,
  length,
}

abbrev pub chars : String → List Char
chars String.[] = []
chars (String.◌∷◌ c s) = c ∷ chars s

abbrev pub of_chars : List Char → String
of_chars [] = String.[]
of_chars (c ∷ cs) = String.◌∷◌ c (of_chars cs)

abbrev pub hyphen : Char
hyphen = "-"

abbrev pub is_hyphen : Char → Bool
is_hyphen c = nat_eq (code c) b'-'

-- `[a-z0-9]`, and `[a-z0-9-]`.
unfoldable pub is_alnum : Char → Bool
is_alnum c = leb b'a' (code c) && leb (code c) b'z' || leb b'0' (code c) && leb (code c) b'9'

abbrev pub is_slug_char : Char → Bool
is_slug_char c = is_alnum c || is_hyphen c

-- `strings.ReplaceAll` of a space, then of an underscore, by a hyphen.
unfoldable pub hyphenated : List Char → List Char
hyphenated [] = []
hyphenated (c ∷ cs) =
    (if nat_eq (code c) b' ' || nat_eq (code c) b'_' then hyphen else c) ∷ hyphenated cs

-- The loop that writes the characters of a slug.
unfoldable pub slug_chars : List Char → List Char
slug_chars [] = []
slug_chars (c ∷ cs) = let rest = slug_chars cs in if is_slug_char c then c ∷ rest else rest

-- `strings.Contains(slug, "--")`.
abbrev pub has_double : List Char → Bool
has_double [] = false
has_double (c ∷ []) = false
has_double (c ∷ d ∷ cs) = is_hyphen c && is_hyphen d || has_double (d ∷ cs)

-- `strings.ReplaceAll(slug, "--", "-")`: from the left, what does not overlap.
unfoldable pub halve_hyphens : List Char → List Char
halve_hyphens [] = []
halve_hyphens (c ∷ []) = c ∷ []
halve_hyphens (c ∷ d ∷ cs) = elim (is_hyphen c && is_hyphen d) [
  | true ↦ hyphen ∷ halve_hyphens cs
  | false ↦ c ∷ halve_hyphens (d ∷ cs)
]

-- The loop `for strings.Contains(slug, "--")`, on fuel.
unfoldable pub collapse : ℕ → List Char → List Char
collapse zero cs = cs
collapse (suc fuel) cs = elim (has_double cs) [
  | true ↦ collapse fuel (halve_hyphens cs)
  | false ↦ cs
]

-- `strings.Trim(slug, "-")`: all hyphens at both ends.
unfoldable pub trim_left : List Char → List Char
trim_left [] = []
trim_left (c ∷ cs) = let rest = trim_left cs in if is_hyphen c then rest else c ∷ cs

-- An empty rest has had all of its characters removed.
abbrev pub trimmed_onto : Char → List Char → List Char
trimmed_onto c [] = if is_hyphen c then [] else c ∷ []
trimmed_onto c (d ∷ rest) = c ∷ d ∷ rest

unfoldable pub trim_right : List Char → List Char
trim_right [] = []
trim_right (c ∷ cs) = trimmed_onto c (trim_right cs)

-- Each round of the loop makes the text shorter, so its length is fuel enough.
unfoldable pub slug_of : List Char → List Char
slug_of lower =
    let cs = slug_chars (hyphenated lower) in trim_right (trim_left (collapse (length cs) cs))

unfoldable pub generate_slug : (String → String) → String → String
generate_slug to_lower name = of_chars (slug_of (chars (to_lower name)))

-- `[a-z0-9-]*[a-z0-9]` to the end of the text.
abbrev pub ends_alnum : List Char → Bool
ends_alnum [] = false
ends_alnum (c ∷ []) = is_alnum c
ends_alnum (c ∷ d ∷ cs) = is_slug_char c && ends_alnum (d ∷ cs)

-- `^[a-z0-9]([a-z0-9-]*[a-z0-9])?$`.
abbrev pub slug_chars_match : List Char → Bool
slug_chars_match [] = false
slug_chars_match (c ∷ []) = is_alnum c
slug_chars_match (c ∷ d ∷ cs) = is_alnum c && ends_alnum (d ∷ cs)

unfoldable pub slug_matches : String → Bool
slug_matches s = slug_chars_match (chars s)
