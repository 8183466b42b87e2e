-- ===== src/Slugs/Shapes.antt =====
-- `_slugify`: the shape of a slug.
use oorvashee_backend.Prelude.{
  ℕ, zero, suc, ◌≡◌, ◌⊎◌, inl, inr, Bool, true, false, ◌&&◌, [], ◌∷◌, arith, Bool-cases, ◌==◌,
}
use oorvashee_backend.Slugs.{
  Text, SlugLimits, take, lower, separate, strip_left, strip_right, strip, slugify, is_slug_char,
  hyphen, is_empty, or_else,
}

-- Lower-case letters, digits and single hyphens: two hyphens never stand side by side. The Boolean says
-- whether a hyphen stands before.
abbrev pub IsSpaced : Bool → Text → Type 0
IsSpaced after [] = Unit
IsSpaced after (c ∷ text) =
    ((is_slug_char c ≡ true) ⊎ ((c ≡ hyphen) × (after ≡ false))) × IsSpaced (c == hyphen) text

separate-IsSpaced : (in_run : Bool) (text : Text) → IsSpaced in_run (separate in_run text)
unfolding separate
separate-IsSpaced in_run [] = tt
separate-IsSpaced in_run (c ∷ text) =
    ground (arith, separate-IsSpaced false text, separate-IsSpaced true text)

strip_left-IsSpaced : (b : Bool) (text : Text) → IsSpaced b text → IsSpaced true (strip_left text)
unfolding strip_left
strip_left-IsSpaced b [] h = tt
strip_left-IsSpaced b (c ∷ text) h = elim (Bool-cases (c == hyphen)) [
  | inl e ↦ rw e (strip_left-IsSpaced (c == hyphen) text h.1)
  | inr e ↦ rw e (ground arith, h.1)
]

strip_right-IsSpaced : (b : Bool) (text : Text) → IsSpaced b text → IsSpaced b (strip_right text)
unfolding strip_right
strip_right-IsSpaced b [] h = tt
strip_right-IsSpaced b (c ∷ text) h =
    elim (Bool-cases (c == hyphen && is_empty (strip_right text))) [
      | inl e ↦ rw e tt
      | inr e ↦ rw e (h.0, strip_right-IsSpaced (c == hyphen) text h.1)
    ]

take-IsSpaced : (n : ℕ) (b : Bool) (text : Text) → IsSpaced b text → IsSpaced b (take n text)
unfolding take
take-IsSpaced zero b text h = tt
take-IsSpaced (suc n) b [] h = tt
take-IsSpaced (suc n) b (c ∷ text) h = (h.0, take-IsSpaced n (c == hyphen) text h.1)

or_else-IsSpaced :
    (text fallback : Text)
    → IsSpaced true text
    → IsSpaced true fallback
    → IsSpaced true (or_else text fallback)
or_else-IsSpaced [] fallback h k = k
or_else-IsSpaced (c ∷ text) fallback h k = h

-- The slug of any name holds lower-case letters, digits and hyphens alone; it does not begin with a hyphen,
-- and two hyphens never stand side by side.
pub slugify-IsSpaced :
    (limits : SlugLimits) (name : Text)
    → IsSpaced true limits.fallback
    → IsSpaced true (slugify limits name)
unfolding slugify
slugify-IsSpaced limits name h =
    or_else-IsSpaced _ limits.fallback
      (take-IsSpaced limits.slug true (strip (separate false (lower name))) (
        strip_right-IsSpaced true (strip_left (separate false (lower name))) (
          strip_left-IsSpaced false (separate false (lower name))
            (separate-IsSpaced false (lower name)))))
      h
