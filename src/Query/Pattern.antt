-- ===== src/Query/Pattern.antt =====
-- The patterns of LIKE: what they match, without the search of src/query-utils.ts.
use yasd.Prelude.{ℕ, ◌≡◌, refl, Bool, true, false, ◌&&◌, ◌||◌, [], ◌∷◌, ◌==◌, if◌then◌else◌, arith}
use yasd.Text.{Text}
use yasd.Query.Like.{only_wildcards, fits}

-- One character, and what follows it.
abbrev pub one : ℕ → (Text → Bool) → Text → Bool
one q f [] = false
one q f (c ∷ cs) = fits q c && f cs

-- Any characters, and what follows them.
abbrev pub some_rest : (Text → Bool) → Text → Bool
some_rest f [] = f []
some_rest f (c ∷ cs) = f (c ∷ cs) || some_rest f cs

-- `%` stands for any characters, `_` for one, and any other character for itself.
unfoldable pub like : Text → Text → Bool
like [] [] = true
like [] (c ∷ cs) = false
like (q ∷ ps) text = if q == b'%' then some_rest (like ps) text else one q (like ps) text

-- A text without the wildcard.
abbrev pub IsPlain : Text → Type 0
IsPlain [] = Unit {0}
IsPlain (c ∷ cs) = ((c == b'%') ≡ false) × IsPlain cs

pub like-only_wildcards : (ps : Text) → like ps [] ≡ only_wildcards ps
unfolding like only_wildcards
like-only_wildcards [] = refl
like-only_wildcards (q ∷ ps) = ground (arith, like-only_wildcards ps)
