-- ===== src/Domain/Text/Laws.antt =====
-- Stripping and upper-casing are done once: a normalized text stays as it is.
use broker_ai.Base.{
  ◌≡◌, refl, true, ◌&&◌, [], ◌∷◌, Text, all_of, arith, inl, inr, Bool-cases, ap, ◌∙◌,
}
use broker_ai.Domain.Text.Defs.{
  is_space, is_empty, lstrip, rstrip, strip, upper, is_alnum, is_alnum_char,
}

-- A first and a last character that are no spaces.
pub lstrip_idem : (s : Text) → lstrip (lstrip s) ≡ lstrip s
unfolding lstrip
lstrip_idem [] = refl
lstrip_idem (c ∷ s) = elim (Bool-cases (is_space c)) [
  | inl e ↦ rw e (lstrip_idem s)
  | inr e ↦ rw (e, e)
]

pub rstrip_idem : (s : Text) → rstrip (rstrip s) ≡ rstrip s
unfolding rstrip
rstrip_idem [] = refl
rstrip_idem (c ∷ s) = elim (Bool-cases (is_space c && is_empty (rstrip s))) [
  | inl e ↦ rw e
  | inr e ↦ rw e (rw (rstrip_idem s, e))
]

pub lstrip-rstrip : (s : Text) → lstrip (rstrip (lstrip s)) ≡ rstrip (lstrip s)
unfolding lstrip rstrip
lstrip-rstrip [] = refl
lstrip-rstrip (c ∷ s) = elim (Bool-cases (is_space c)) [
  | inl e ↦ rw e (lstrip-rstrip s)
  | inr e ↦ rw (e, e) (rw e)
]

pub strip_idem : (s : Text) → strip (strip s) ≡ strip s
unfolding strip
strip_idem s = ap rstrip (lstrip-rstrip s) ∙ rstrip_idem (lstrip s)

pub upper_idem : (s : Text) → upper (upper s) ≡ upper s
unfolding upper
upper_idem [] = refl
upper_idem (c ∷ s) = ground (arith, upper_idem s)

-- Alphanumeric text has nothing to strip.
rstrip_alnum : (s : Text) → all_of is_alnum_char s ≡ true → rstrip s ≡ s
unfolding rstrip
rstrip_alnum [] h = refl
rstrip_alnum (c ∷ s) h = ground (arith, rstrip_alnum s)

pub strip_alnum : (s : Text) → is_alnum s ≡ true → strip s ≡ s
unfolding strip lstrip is_alnum
strip_alnum [] h = refl
strip_alnum (c ∷ s) h = ground (arith, rstrip_alnum (c ∷ s))
