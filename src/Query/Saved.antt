-- ===== src/Query/Saved.antt =====
-- What `matchLike` of src/query-utils.ts remembers of a wildcard, and what it forgets.
use yasd.Prelude.{
  ℕ, zero, suc, ◌≤◌, ◌<◌, ◌≡◌, refl, sym, ap, ◌∙◌, subst, Bool, true, false, ◌||◌, none, some, [],
  ◌∷◌, length, drop, ◌==◌, arith, Bool-cases, inl, inr,
}
use yasd.Text.{Text}
use yasd.Query.Like.{Saved, fits}
use yasd.Query.Pattern.{one, some_rest, like}

-- The pattern `ps` on the text `r` has come to `p` on `t`, character by character.
pub data Run : Text → Text → Text → Text → Type 0 where
  here : {p t : Text} → Run p t p t
  next :
      {ps r p t : Text} (q c : ℕ)
      → Run ps r (q ∷ p) (c ∷ t)
      → fits q c ≡ true
      → (q == b'%') ≡ false
      → Run ps r p t

one_holds :
    (q : ℕ) (f : Text → Bool) (t : Text) → one q f t ≡ true → (0 < length t) × (f (drop 1 t) ≡ true)
one_holds q f [] h = ground arith
one_holds q f (c ∷ cs) h = (omega arith, ground arith)

drop-nil : (n : ℕ) → drop {A = ℕ} n [] ≡ []
drop-nil zero = refl
drop-nil (suc n) = refl

drop_suc : (k c : ℕ) (t : Text) → drop 1 (drop k (c ∷ t)) ≡ drop k t
drop_suc zero c t = refl
drop_suc (suc k) c [] = ap (drop 1) (drop-nil k)
drop_suc (suc k) c (d ∷ t) = drop_suc k d t

short_drop : (k c : ℕ) (t : Text) → 0 < length (drop k (c ∷ t)) → k ≤ length t
short_drop zero c t h = omega arith
short_drop (suc k) c [] h = absurd (omega (arith, ap length (drop-nil k)))
short_drop (suc k) c (d ∷ t) h = omega (arith, short_drop k d t h)

-- The two kinds of characters of a pattern.
pub like-one : (q : ℕ) (ps t : Text) → (q == b'%') ≡ false → like (q ∷ ps) t ≡ one q (like ps) t
unfolding like
like-one q ps t h = rw h refl

pub like-some_rest :
    (q : ℕ) (ps t : Text) → (q == b'%') ≡ true → like (q ∷ ps) t ≡ some_rest (like ps) t
unfolding like
like-some_rest q ps t h = rw h refl

-- From `k` characters on, the rest of the pattern matches from `k` characters on.
pub later-Run :
    (ps r p t : Text) (k : ℕ)
    → Run ps r p t
    → k ≤ length r
    → like ps (drop k r) ≡ true
    → (k ≤ length t) × (like p (drop k t) ≡ true)
later-Run ps r p t k here le h = (le, h)
later-Run ps r p t k (next q c s f g) le h =
    let (_, e) = later-Run ps r (q ∷ p) (c ∷ t) k s le h in
    after (sym (like-one q p (drop k (c ∷ t)) g) ∙ e)
  where
    after : one q (like p) (drop k (c ∷ t)) ≡ true → (k ≤ length t) × (like p (drop k t) ≡ true)
    after e =
        let (short, m) = one_holds q (like p) (drop k (c ∷ t)) e in
        (short_drop k c t short, subst (λ u. like p u ≡ true) (drop_suc k c t) m)

some_rest-drop :
    (f : Text → Bool) (k : ℕ) (t : Text)
    → k ≤ length t
    → some_rest f (drop k t) ≡ true
    → some_rest f t ≡ true
some_rest-drop f zero t le h = h
some_rest-drop f (suc k) [] le h = absurd (omega arith)
some_rest-drop f (suc k) (c ∷ t) le h = ground (arith, some_rest-drop f k t (omega arith) h)

drop-some_rest :
    (f : Text → Bool) (t : Text)
    → some_rest f t ≡ true
    → (k : ℕ) × (k ≤ length t) × (f (drop k t) ≡ true)
drop-some_rest f [] h = (0, omega arith, h)
drop-some_rest f (c ∷ t) h = elim (Bool-cases (f (c ∷ t))) [
  | inl e ↦ (0, omega arith, e)
  | inr e ↦ let (k, le, g) = drop-some_rest f t (ground arith) in (suc k, omega arith, g)
]

-- What the search has saved could still match: the pattern after the wildcard, from a later position.
abbrev pub later : Saved → Bool
later none = false
later (some (ps, [])) = false
later (some (ps, x ∷ r)) = some_rest (like ps) r

-- The position that is saved leads to the one in hand.
abbrev pub Leads : Saved → Text → Text → Type 0
Leads none p t = Unit {0}
Leads (some (ps, r)) p t = Run ps r p t

drop-later :
    (ps r : Text)
    → later (some (ps, r)) ≡ true
    → (k : ℕ) × (suc k ≤ length r) × (like ps (drop (suc k) r) ≡ true)
drop-later ps [] h = ground arith
drop-later ps (x ∷ r) h = let (k, le, g) = drop-some_rest (like ps) r h in (k, omega arith, g)

-- At the end of the text nothing that is saved can match.
pub later_end : (saved : Saved) (p : Text) → Leads saved p [] → later saved ≡ false
later_end none p h = refl
later_end (some (ps, r)) p h = elim (Bool-cases (later (some (ps, r)))) [
  | inl e ↦
      let (k, le, g) = drop-later ps r e in
      let (short, _) = later-Run ps r p [] (suc k) h le g in absurd (omega arith)
  | inr e ↦ e
]

-- In front of a wildcard what is saved is not needed.
pub later_wildcard :
    (saved : Saved) (q : ℕ) (p t : Text)
    → (q == b'%') ≡ true
    → Leads saved (q ∷ p) t
    → (some_rest (like p) t || later saved) ≡ some_rest (like p) t
later_wildcard none q p t w h = ground arith
later_wildcard (some (ps, r)) q p t w h = elim (Bool-cases (later (some (ps, r)))) [
  | inl e ↦
      let (k, le, g) = drop-later ps r e in
      let (short, m) = later-Run ps r (q ∷ p) t (suc k) h le g in
      let all =
        some_rest-drop (like p) (suc k) t short (sym (like-some_rest q p (drop (suc k) t) w) ∙ m) in
      rw all refl
  | inr e ↦ rw e (ground arith)
]

pub like-later : (ps r : Text) → (like ps r || later (some (ps, r))) ≡ some_rest (like ps) r
like-later ps [] = ground arith
like-later ps (x ∷ r) = refl
