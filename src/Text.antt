-- ===== src/Text.antt =====
-- Strings as the program sees them: sequences of UTF-16 code units. The string methods that
-- src/cache.ts uses on keys, and the byte length of its UTF-8 encoding.
use yasd.Prelude.{
  ℕ, ◌+◌, ◌≡◌, ◌↔◌, refl, Bool, true, false, ◌&&◌, Option, none, some, List, [], ◌∷◌, arith, ltb,
  leb, ◌==◌, if◌then◌else◌,
}
use Prim.Native.Char.{code}
use Prim.Native.String.{String}
use mathlib.Core.Option
use native.Mathlib.Decide.{ℕ_discrete}

abbrev pub Text : Type 0
Text = List ℕ

unfoldable pub text_discrete : Discrete Text
unfolding ℕ_discrete
text_discrete = hlevel ℕ_discrete

-- A literal of the source.
abbrev pub codes : String → Text
codes String.[] = []
codes (String.◌∷◌ c s) = code c ∷ codes s

abbrev pub is_high_surrogate : ℕ → Bool
is_high_surrogate c = leb 0xd800 c && leb c 0xdbff

abbrev pub is_low_surrogate : ℕ → Bool
is_low_surrogate c = leb 0xdc00 c && leb c 0xdfff

-- Bytes of one code unit outside a surrogate pair; a lone surrogate is encoded as U+FFFD.
abbrev pub unit_bytes : ℕ → ℕ
unit_bytes c = if ltb c 0x80 then 1 else if ltb c 0x800 then 2 else 3

-- `Buffer.byteLength(value, "utf8")`
unfoldable pub utf8_byte_length : Text → ℕ
utf8_byte_length [] = 0
utf8_byte_length (c ∷ []) = unit_bytes c
utf8_byte_length (c ∷ d ∷ cs) =
    let pair = 4 + utf8_byte_length cs in
    let single = unit_bytes c + utf8_byte_length (d ∷ cs) in
    if is_high_surrogate c && is_low_surrogate d then pair else single

abbrev pub colon : ℕ
colon = b':'

-- The text in front of the first colon, if there is a colon.
unfoldable pub before_colon : Text → Option Text
before_colon [] = none
before_colon (c ∷ cs) = if c == colon then some [] else Option.map (λ p. c ∷ p) (before_colon cs)

-- `namespaceOf`: `indexOf(":")` greater than 0, and the slice up to it.
unfoldable pub namespace_of : Text → Text
unfolding before_colon
namespace_of key = elim (before_colon key) [ none ↦ [] | some p ↦ p ]

-- `text.startsWith(prefix)`
unfoldable pub starts_with : Text → Text → Bool
starts_with text [] = true
starts_with [] (p ∷ ps) = false
starts_with (c ∷ cs) (p ∷ ps) = (c == p) && starts_with cs ps

-- `text === other`
unfoldable pub text_eq : Text → Text → Bool
text_eq [] [] = true
text_eq [] (d ∷ ds) = false
text_eq (c ∷ cs) [] = false
text_eq (c ∷ cs) (d ∷ ds) = (c == d) && text_eq cs ds

text_eq→eq : (s t : Text) → text_eq s t ≡ true → s ≡ t
unfolding text_eq
text_eq→eq [] [] h = refl
text_eq→eq [] (d ∷ ds) h = cc
text_eq→eq (c ∷ cs) [] h = cc
text_eq→eq (c ∷ cs) (d ∷ ds) h = ground (arith, text_eq→eq cs ds)

text_eq_refl : (s : Text) → text_eq s s ≡ true
unfolding text_eq
text_eq_refl [] = refl
text_eq_refl (c ∷ cs) = ground (arith, text_eq_refl cs)

pub text_eq_iff : (s t : Text) → (text_eq s t ≡ true) ↔ (s ≡ t)
text_eq_iff s t = (text_eq→eq s t, λ e. rw e (text_eq_refl t))
