-- ===== src/Base/Trimming.antt =====
-- What strings.TrimSpace leaves: texts that begin and end with a character that is not trimmed.
use Prim.Native.Nat.{ℕ, suc, ◌+◌, ◌≤◌}
use mathlib.Core.Path.{◌≡◌, refl, sym, ap, subst, ◌∙◌}
use mathlib.Core.Bool.{Bool, true, false}
use mathlib.Core.List.{List, [], ◌∷◌, ◌++◌, reverse, reverse_aux, reverse-append, reverse-reverse}
use mathlib.Core.Logic.{inl, inr}
use native.Mathlib.Omega.{arith}
use perf_loadgen.Base.Tests.{nat_beq, Bool-cases}
use perf_loadgen.Base.Lists.{length, All}
use perf_loadgen.Base.Strings.{
  Text, is_empty, is_space, trim_left, trim_right, trim_space, split, push_head,
}

-- The first character, if any, is not trimmed.
abbrev pub Starts : (ℕ → Bool) → Text → Type 0
Starts p [] = Unit
Starts p (c ∷ s) = p c ≡ false

trim_left-length : (p : ℕ → Bool) (s : Text) → length (trim_left p s) ≤ length s
unfolding trim_left
trim_left-length p [] = omega arith
trim_left-length p (c ∷ s) = ground (arith, trim_left-length p s)

pub trim_left-Starts : (p : ℕ → Bool) (s : Text) → Starts p (trim_left p s)
unfolding trim_left
trim_left-Starts p [] = tt
trim_left-Starts p (c ∷ s) = elim (Bool-cases (p c)) [
  | inl e ↦ rw e (trim_left-Starts p s)
  | inr e ↦ rw e e
]

pub Starts-kept : (p : ℕ → Bool) (s : Text) → Starts p s → trim_left p s ≡ s
unfolding trim_left
Starts-kept p [] h = refl
Starts-kept p (c ∷ s) h = rw h refl

-- The last character, if any, is not trimmed.
abbrev pub Ends : (ℕ → Bool) → Text → Type 0
Ends p s = Starts p (reverse s)

pub Ends-kept : (p : ℕ → Bool) (s : Text) → Ends p s → trim_right p s ≡ s
unfolding trim_right
Ends-kept p s h = rw (Starts-kept p (reverse s) h) (reverse-reverse s)

pub trim_right-Ends : (p : ℕ → Bool) (s : Text) → Ends p (trim_right p s)
unfolding trim_right
trim_right-Ends p s =
    rw (reverse-reverse (trim_left p (reverse s))) (trim_left-Starts p (reverse s))

Starts-append : (p : ℕ → Bool) (s t : Text) → is_empty s ≡ false → Starts p s → Starts p (s ++ t)
Starts-append p [] t h k = ground arith
Starts-append p (c ∷ s) t h k = k

reverse_aux-is_empty : (s acc : Text) → is_empty acc ≡ false → is_empty (reverse_aux s acc) ≡ false
reverse_aux-is_empty [] acc h = h
reverse_aux-is_empty (c ∷ s) acc h = reverse_aux-is_empty s (c ∷ acc) refl

length-reverse_aux : (s acc : Text) → length (reverse_aux s acc) ≡ length s + length acc
length-reverse_aux [] acc = omega arith
length-reverse_aux (c ∷ s) acc = omega (arith, length-reverse_aux s (c ∷ acc))

length-reverse : (s : Text) → length (reverse s) ≡ length s
length-reverse s = omega (arith, length-reverse_aux s [])

trim_right-length : (p : ℕ → Bool) (s : Text) → length (trim_right p s) ≤ length s
unfolding trim_right
trim_right-length p s = omega (
  arith,
  length-reverse (trim_left p (reverse s)),
  trim_left-length p (reverse s),
  length-reverse s,
)

reverse-is_empty : (s : Text) → is_empty s ≡ false → is_empty (reverse s) ≡ false
reverse-is_empty [] h = h
reverse-is_empty (c ∷ s) h = reverse_aux-is_empty s (c ∷ []) refl

pub Ends-append : (p : ℕ → Bool) (s t : Text) → is_empty t ≡ false → Ends p t → Ends p (s ++ t)
Ends-append p s t h k =
    rw (reverse-append s t) (Starts-append p (reverse t) (reverse s) (reverse-is_empty t h) k)

-- A weaker set trims no more.
pub Starts-weaken :
    (p q : ℕ → Bool) (s : Text) → ((c : ℕ) → p c ≡ false → q c ≡ false) → Starts p s → Starts q s
Starts-weaken p q [] w h = tt
Starts-weaken p q (c ∷ s) w h = w c h

-- A text that TrimSpace leaves as it is.
skipped :
    (c : ℕ) (s : Text)
    → is_space c ≡ true
    → trim_space (c ∷ s) ≡ trim_right is_space (trim_left is_space s)
unfolding trim_space trim_left
skipped c s h = rw h refl

trimmed_away : (c : ℕ) (s : Text) → is_space c ≡ true → trim_space (c ∷ s) ≡ c ∷ s → ⊥
trimmed_away c s h e =
    too_short (ap length (sym e ∙ skipped c s h))
      (trim_right-length is_space (trim_left is_space s)) (trim_left-length is_space s)
  where
    too_short : {a b n : ℕ} → suc n ≡ a → a ≤ b → b ≤ n → ⊥
    too_short e h k = omega arith

pub trimmed-Starts : (s : Text) → trim_space s ≡ s → Starts is_space s
trimmed-Starts [] e = tt
trimmed-Starts (c ∷ s) e = elim (Bool-cases (is_space c)) [
  | inl h ↦ elim (trimmed_away c s h e) [ ]
  | inr h ↦ h
]

pub trimmed-Ends : (s : Text) → trim_space s ≡ s → Ends is_space s
unfolding trim_space
trimmed-Ends s e = rw (sym e) (trim_right-Ends is_space (trim_left is_space s))

keeps_one :
    (p : ℕ → Bool) (xs : Text) (c : ℕ) → p c ≡ false → is_empty (trim_left p (xs ++ c ∷ [])) ≡ false
unfolding trim_left
keeps_one p [] c h = rw h refl
keeps_one p (x ∷ xs) c h = elim (Bool-cases (p x)) [
  | inl e ↦ rw e (keeps_one p xs c h)
  | inr e ↦ rw e refl
]

trim_right-first :
    (p : ℕ → Bool) (c : ℕ) (s : Text) → p c ≡ false → is_empty (trim_right p (c ∷ s)) ≡ false
unfolding trim_right
trim_right-first p c s h = reverse-is_empty (trim_left p (reverse (c ∷ s))) (
    subst (λ z. is_empty (trim_left p z) ≡ false) (sym (reverse-append (c ∷ []) s))
      (keeps_one p (reverse s) c h))

-- A text that begins with a character that is not white space is not blank.
pub trim_space-first :
    (c : ℕ) (s : Text) → is_space c ≡ false → is_empty (trim_space (c ∷ s)) ≡ false
unfolding trim_space trim_left
trim_space-first c s h = rw h (trim_right-first is_space c s h)

abbrev pub IsBlank : Text → Type 0
IsBlank = All (λ c. is_space c ≡ true)

pub is_empty-IsBlank : (s : Text) → is_empty (trim_space s) ≡ true → IsBlank s
unfolding trim_space
is_empty-IsBlank [] h = tt
is_empty-IsBlank (c ∷ s) h = elim (Bool-cases (is_space c)) [
  | inl e ↦ (e, is_empty-IsBlank s (subst (λ z. is_empty z ≡ true) (skipped c s e) h))
  | inr e ↦ elim (both (trim_space-first c s e) h) [ ]
]
  where
    both : {b : Bool} → b ≡ false → b ≡ true → ⊥
    both e h = cc

pub IsBlank-is_empty : (s : Text) → IsBlank s → is_empty (trim_space s) ≡ true
unfolding trim_space trim_left trim_right
IsBlank-is_empty [] h = refl
IsBlank-is_empty (c ∷ s) (h, hs) = rw h (IsBlank-is_empty s hs)

-- What holds of every character of a text holds of those of its parts.
push_head-All :
    (P : ℕ → Type 0) (c : ℕ) (parts : List Text)
    → P c
    → All (All P) parts
    → All (All P) (push_head c parts)
push_head-All P c [] h hs = ((h, tt), tt)
push_head-All P c (w ∷ ws) h (k, ks) = ((h, k), ks)

pub split-All : (P : ℕ → Type 0) (sep : ℕ) (s : Text) → All P s → All (All P) (split sep s)
unfolding split
split-All P sep [] h = (tt, tt)
split-All P sep (c ∷ s) (h, hs) = elim (Bool-cases (nat_beq c sep)) [
  | inl e ↦ rw e (tt, split-All P sep s hs)
  | inr e ↦ rw e (push_head-All P c (split sep s) h (split-All P sep s hs))
]
