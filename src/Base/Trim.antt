-- ===== src/Base/Trim.antt =====
-- What `strings.Trim` and `strings.TrimSpace` leave of a text none of whose characters are cut.
use mathlib.Core.List.{reverse, reverse-append, reverse-cons, reverse-reverse}
use dockup.Base.Text.{is_space, drop_while, trim, trim_right, trim_space}
use dockup.Base.{
  ℕ, ◌≡◌, ◌∙◌, ap, sym, refl, subst, Bool, true, false, [], ◌∷◌, ◌++◌, Str, All, All-append,
}

-- None of the characters is cut.
abbrev pub Bare : (ℕ → Bool) → Str → Type 0
Bare p = All (λ c. p c ≡ false)

abbrev pub NoSpace : Str → Type 0
NoSpace = Bare is_space

module _ (p : ℕ → Bool) where
  reverse-Bare : (s : Str) → Bare p s → Bare p (reverse s)
  reverse-Bare [] h = tt
  reverse-Bare (c ∷ s) (hc, hs) =
      subst (Bare p) (sym (reverse-cons c s))
        (All-append (λ c. p c ≡ false) (reverse s) (c ∷ []) (reverse-Bare s hs) (hc, tt))

  drop_while-Bare : (s : Str) → Bare p s → drop_while p s ≡ s
  unfolding drop_while
  drop_while-Bare [] h = refl
  drop_while-Bare (c ∷ s) (hc, hs) = rw hc refl

  trim_right-Bare : (s : Str) → Bare p s → trim_right p s ≡ s
  unfolding trim_right
  trim_right-Bare s h =
      ap reverse (drop_while-Bare (reverse s) (reverse-Bare s h)) ∙ reverse-reverse s

  trim_right-end : (s : Str) (x : ℕ) → p x ≡ true → Bare p s → trim_right p (s ++ x ∷ []) ≡ s
  unfolding trim_right drop_while
  trim_right-end s x cuts h =
      ap (λ t. reverse (drop_while p t)) (reverse-append s (x ∷ [])) ∙ rw cuts (trim_right-Bare s h)

  trim-Bare : (s : Str) → Bare p s → trim p s ≡ s
  unfolding trim
  trim-Bare s h = ap (trim_right p) (drop_while-Bare s h) ∙ trim_right-Bare s h

  pub trim-end : (s : Str) (x : ℕ) → p x ≡ true → Bare p s → trim p (s ++ x ∷ []) ≡ s
  unfolding trim drop_while trim_right
  trim-end [] x cuts h = rw cuts refl
  trim-end (c ∷ s) x cuts (hc, hs) = rw hc (trim_right-end (c ∷ s) x cuts (hc, hs))

pub trim_space-bare : (s : Str) → NoSpace s → trim_space s ≡ s
unfolding trim_space
trim_space-bare s h = trim-Bare is_space s h

pub trim_space-line : (s : Str) → NoSpace s → trim_space (s ++ (10 ∷ [])) ≡ s
unfolding trim_space is_space
trim_space-line s h = trim-end is_space s 10 refl h
