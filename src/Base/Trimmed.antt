-- ===== src/Base/Trimmed.antt =====
-- Texts without white space are not trimmed.
use mathlib.Core.Path.{◌≡◌, refl}
use mathlib.Core.Bool.{false}
use mathlib.Core.List.{[], ◌∷◌, reverse, reverse-reverse, reverse-cons}
use Prim.Native.Nat.{ℕ}
use trc.Base.Lists.{All, All-append}
use trc.Base.Strings.{Text, is_space, trim_left, trim_space}

abbrev pub NoSpace : Text → Type 0
NoSpace = All (λ (c : ℕ). is_space c ≡ false)

trim_left_none : (s : Text) → NoSpace s → trim_left s ≡ s
unfolding trim_left
trim_left_none [] h = refl
trim_left_none (c ∷ s) h = rw h.0 refl

NoSpace-reverse : (s : Text) → NoSpace s → NoSpace (reverse s)
NoSpace-reverse [] h = tt
NoSpace-reverse (c ∷ s) h =
    rw (reverse-cons c s) (All-append _ (reverse s) (c ∷ []) (NoSpace-reverse s h.1) (h.0, tt))

pub trim_space_none : (s : Text) → NoSpace s → trim_space s ≡ s
unfolding trim_space
trim_space_none s h =
    rw (trim_left_none s h, trim_left_none (reverse s) (NoSpace-reverse s h)) (reverse-reverse s)
