-- ===== src/Namespaces/Trimmed.antt =====
-- What `strings.TrimSpace` leaves alone.
use certificate_job_operator.Prelude.{
  ℕ, ◌≤◌, Bool, true, false, ◌&&◌, not, List, [], ◌∷◌, ◌++◌, Str, leb, ◌≡◌, refl, sym, ap, ◌∙◌, All,
  All-append, arith,
}
use mathlib.Core.List.{append-nil, append_assoc}
use certificate_job_operator.Namespaces.{
  spaces, reverse, reverse_each, has_prefix, rune_width, trim_front, trim_space,
}

-- A printable ASCII byte that is no space.
abbrev pub IsVisible : ℕ → Type 0
IsVisible b = (33 ≤ b) × (b ≤ 126)

abbrev starts_hidden : Str → Bool
starts_hidden [] = false
starts_hidden (p ∷ ps) = not (leb 33 p && leb p 126)

abbrev all_hidden : List Str → Bool
all_hidden [] = true
all_hidden (rune ∷ runes) = starts_hidden rune && all_hidden runes

has_prefix-visible :
    (rune : Str) (b : ℕ) (s : Str)
    → starts_hidden rune ≡ true
    → IsVisible b
    → has_prefix rune (b ∷ s) ≡ false
unfolding has_prefix
has_prefix-visible [] b s h v = cc
has_prefix-visible (p ∷ ps) b s h v = ground arith

rune_width-visible :
    (runes : List Str) (b : ℕ) (s : Str)
    → all_hidden runes ≡ true
    → IsVisible b
    → rune_width runes (b ∷ s) ≡ 0
unfolding rune_width
rune_width-visible [] b s h v = refl
rune_width-visible (rune ∷ runes) b s h v =
    ground (arith, has_prefix-visible rune b s, rune_width-visible runes b s)

trim_front-visible :
    (runes : List Str) (s : Str)
    → all_hidden runes ≡ true
    → All IsVisible s
    → trim_front runes 0 s ≡ s
unfolding trim_front
trim_front-visible runes [] h v = refl
trim_front-visible runes (b ∷ s) h (v, vs) = rw (rune_width-visible runes b s h v, trim_front) refl

reverse-append : (s t : Str) → reverse (s ++ t) ≡ reverse t ++ reverse s
reverse-append [] t = sym (append-nil _)
reverse-append (b ∷ s) t =
    ap (λ r. r ++ b ∷ []) (reverse-append s t) ∙ append_assoc (reverse t) (reverse s) (b ∷ [])

reverse-reverse : (s : Str) → reverse (reverse s) ≡ s
reverse-reverse [] = refl
reverse-reverse (b ∷ s) = reverse-append (reverse s) (b ∷ []) ∙ ap (λ r. b ∷ r) (reverse-reverse s)

reverse-IsVisible : (s : Str) → All IsVisible s → All IsVisible (reverse s)
reverse-IsVisible [] v = tt
reverse-IsVisible (b ∷ s) (v, vs) =
    All-append IsVisible (reverse s) (b ∷ []) (reverse-IsVisible s vs) (v, tt)

-- A string of visible bytes has nothing to trim.
pub trim_space-visible : (s : Str) → All IsVisible s → trim_space s ≡ s
unfolding trim_space
trim_space-visible s v =
    ap (λ t. reverse (trim_front (reverse_each spaces) 0 (reverse t)))
      (trim_front-visible spaces s refl v)
    ∙ ap (λ t. reverse t)
        (trim_front-visible (reverse_each spaces) (reverse s) refl (reverse-IsVisible s v))
    ∙ reverse-reverse s
