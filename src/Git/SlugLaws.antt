-- ===== src/Git/SlugLaws.antt =====
-- What `generateSlug` makes of a name matches `slugRegex`, unless it is empty.
use Prim.Native.Char.{Char}
use uniedit_server.Common.{
  ◌≡◌, refl, ap, ◌⊎◌, inl, inr, ℕ, zero, suc, ◌≤◌, ◌<◌, true, false, Bool-cases, String, List, [],
  ◌∷◌, length, All, arith,
}
use uniedit_server.Git.Slugs.{
  chars, of_chars, is_hyphen, is_alnum, is_slug_char, hyphenated, slug_chars, has_double,
  halve_hyphens, collapse, trim_left, trimmed_onto, trim_right, slug_of, generate_slug, ends_alnum,
  slug_chars_match, slug_matches,
}

abbrev Slugged : List Char → Type 0
Slugged = All (λ c. is_slug_char c ≡ true)

slug_chars-Slugged : (cs : List Char) → Slugged (slug_chars cs)
unfolding slug_chars
slug_chars-Slugged [] = tt
slug_chars-Slugged (c ∷ cs) = elim (Bool-cases (is_slug_char c)) [
  | inl e ↦ rw e (e, slug_chars-Slugged cs)
  | inr e ↦ rw e (slug_chars-Slugged cs)
]

halve_hyphens-le : (cs : List Char) → length (halve_hyphens cs) ≤ length cs
unfolding halve_hyphens
halve_hyphens-le [] = omega arith
halve_hyphens-le (c ∷ []) = omega arith
halve_hyphens-le (c ∷ d ∷ cs) = ground (arith, halve_hyphens-le cs, halve_hyphens-le (d ∷ cs))

halve_hyphens-lt : (cs : List Char) → has_double cs ≡ true → length (halve_hyphens cs) < length cs
unfolding halve_hyphens
halve_hyphens-lt [] h = ground arith
halve_hyphens-lt (c ∷ []) h = ground arith
halve_hyphens-lt (c ∷ d ∷ cs) h = ground (arith, halve_hyphens-le cs, halve_hyphens-lt (d ∷ cs))

halve_hyphens-Slugged : (cs : List Char) → Slugged cs → Slugged (halve_hyphens cs)
unfolding halve_hyphens
halve_hyphens-Slugged [] h = tt
halve_hyphens-Slugged (c ∷ []) h = h
halve_hyphens-Slugged (c ∷ d ∷ cs) h =
    ground (arith, halve_hyphens-Slugged cs, halve_hyphens-Slugged (d ∷ cs))

-- With the length as fuel the loop ends by its test.
pub collapse_ends :
    (fuel : ℕ) (cs : List Char) → length cs ≤ fuel → has_double (collapse fuel cs) ≡ false
unfolding collapse
collapse_ends zero [] h = refl
collapse_ends zero (c ∷ cs) h = absurd (omega arith)
collapse_ends (suc fuel) cs h =
    ground (arith, halve_hyphens-lt cs, collapse_ends fuel (halve_hyphens cs))

collapse-Slugged : (fuel : ℕ) (cs : List Char) → Slugged cs → Slugged (collapse fuel cs)
unfolding collapse
collapse-Slugged zero cs h = h
collapse-Slugged (suc fuel) cs h =
    ground (arith, halve_hyphens-Slugged cs, collapse-Slugged fuel (halve_hyphens cs))

-- What is no hyphen at the ends, and nowhere twice.
abbrev Starts : List Char → Type 0
Starts [] = Unit
Starts (c ∷ cs) = is_hyphen c ≡ false

abbrev Single : List Char → Type 0
Single cs = has_double cs ≡ false

trim_left-Slugged : (cs : List Char) → Slugged cs → Slugged (trim_left cs)
unfolding trim_left
trim_left-Slugged [] h = tt
trim_left-Slugged (c ∷ cs) h = ground (arith, trim_left-Slugged cs)

trim_left-Starts : (cs : List Char) → Starts (trim_left cs)
unfolding trim_left
trim_left-Starts [] = tt
trim_left-Starts (c ∷ cs) = ground (arith, trim_left-Starts cs)

Single-tail : (c : Char) (cs : List Char) → Single (c ∷ cs) → Single cs
Single-tail c [] h = refl
Single-tail c (d ∷ cs) h = ground arith

trim_left-Single : (cs : List Char) → Single cs → Single (trim_left cs)
unfolding trim_left
trim_left-Single [] h = refl
trim_left-Single (c ∷ cs) h = ground (arith, Single-tail c cs h, trim_left-Single cs)

trimmed_onto-Slugged :
    (c : Char) (cs : List Char) → is_slug_char c ≡ true → Slugged cs → Slugged (trimmed_onto c cs)
trimmed_onto-Slugged c [] e h = ground arith
trimmed_onto-Slugged c (d ∷ cs) e h = (e, h)

trim_right-Slugged : (cs : List Char) → Slugged cs → Slugged (trim_right cs)
unfolding trim_right
trim_right-Slugged [] h = tt
trim_right-Slugged (c ∷ cs) h =
    trimmed_onto-Slugged c (trim_right cs) h.0 (trim_right-Slugged cs h.1)

trimmed_onto-Starts : (c : Char) (cs : List Char) → is_hyphen c ≡ false → Starts (trimmed_onto c cs)
trimmed_onto-Starts c [] e = ground arith
trimmed_onto-Starts c (d ∷ cs) e = e

trim_right-Starts : (cs : List Char) → Starts cs → Starts (trim_right cs)
unfolding trim_right
trim_right-Starts [] h = tt
trim_right-Starts (c ∷ cs) h = trimmed_onto-Starts c (trim_right cs) h

-- The end of what is trimmed is a letter or a digit.
abbrev Ends : List Char → Type 0
Ends [] = Unit
Ends (c ∷ cs) = ends_alnum (c ∷ cs) ≡ true

alnum_of : (c : Char) → is_slug_char c ≡ true → is_hyphen c ≡ false → is_alnum c ≡ true
alnum_of c h e = ground arith

trimmed_onto-Ends :
    (c : Char) (cs : List Char) → is_slug_char c ≡ true → Ends cs → Ends (trimmed_onto c cs)
trimmed_onto-Ends c [] e h = ground (arith, alnum_of c)
trimmed_onto-Ends c (d ∷ cs) e h = ground arith

trim_right-Ends : (cs : List Char) → Slugged cs → Ends (trim_right cs)
unfolding trim_right
trim_right-Ends [] h = tt
trim_right-Ends (c ∷ cs) h = trimmed_onto-Ends c (trim_right cs) h.0 (trim_right-Ends cs h.1)

trimmed_onto-Single :
    (c d : Char) (cs rest : List Char)
    → Single (c ∷ d ∷ cs)
    → Single (trimmed_onto d rest)
    → Single (trimmed_onto c (trimmed_onto d rest))
trimmed_onto-Single c d cs [] h k = ground arith
trimmed_onto-Single c d cs (e ∷ rest) h k = ground arith

trim_right-Single : (cs : List Char) → Single cs → Single (trim_right cs)
unfolding trim_right
trim_right-Single [] h = refl
trim_right-Single (c ∷ []) h = ground arith
trim_right-Single (c ∷ d ∷ cs) h =
    trimmed_onto-Single c d cs (trim_right cs) h
      (trim_right-Single (d ∷ cs) (Single-tail c (d ∷ cs) h))

matches_of :
    (cs : List Char) → Slugged cs → Starts cs → Ends cs → (cs ≡ []) ⊎ (slug_chars_match cs ≡ true)
matches_of [] s a b = inl refl
matches_of (c ∷ []) s a b = inr b
matches_of (c ∷ d ∷ cs) s a b = inr (ground (arith, alnum_of c))

chars-of_chars : (cs : List Char) → chars (of_chars cs) ≡ cs
chars-of_chars [] = refl
chars-of_chars (c ∷ cs) = ap (λ xs. c ∷ xs) (chars-of_chars cs)

abbrev Slug : List Char → Type 0
Slug cs = (cs ≡ []) ⊎ ((slug_chars_match cs ≡ true) × (has_double cs ≡ false))

slug_of-Slug : (lower : List Char) → Slug (slug_of lower)
unfolding slug_of
slug_of-Slug lower =
    let cs = slug_chars (hyphenated lower) in
    let ds = collapse (length cs) cs in
    let es = trim_left ds in
    let slugged =
      trim_left-Slugged ds
        (collapse-Slugged (length cs) cs (slug_chars-Slugged (hyphenated lower))) in
    let single = trim_left-Single ds (collapse_ends (length cs) cs (omega arith)) in
    elim (matches_of (trim_right es) (trim_right-Slugged es slugged)
      (trim_right-Starts es (trim_left-Starts ds)) (trim_right-Ends es slugged)) [
        | inl e ↦ inl e
        | inr m ↦ inr (m, trim_right-Single es single)
      ]

-- A slug that is not empty matches `slugRegex` and has no double hyphen.
pub generate_slug_lem :
    (to_lower : String → String) (name : String)
    → (generate_slug to_lower name ≡ "")
      ⊎ ((slug_matches (generate_slug to_lower name) ≡ true)
          × (has_double (chars (generate_slug to_lower name)) ≡ false))
unfolding generate_slug slug_matches
generate_slug_lem to_lower name =
    rw (chars-of_chars (slug_of (chars (to_lower name))))
      (elim (slug_of-Slug (chars (to_lower name))) [ inl e ↦ inl (ap of_chars e) | inr m ↦ inr m ])
