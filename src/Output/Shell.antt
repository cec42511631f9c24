-- ===== src/Output/Shell.antt =====
-- internal/output/agent.go: the words that a POSIX shell makes of the command of buildRetestCommand.
use perf_loadgen.Base.{
  ℕ, ◌≡◌, refl, ap, sym, ◌∙◌, arith, Bool, true, false, ◌&&◌, ◌||◌, Bool-cases, inl, inr, List, [],
  ◌∷◌, ◌++◌, append-nil, append_assoc, Text, codes, leb, nat_beq, nat_beq_iff, All, if◌then◌else◌,
}
use perf_loadgen.Output.Retest.{shell_quote, when}

-- Where the reader of the shell stands: between two words, in a word, in single quotes, or after a
-- backslash.
pub data Mode : Type 0 where
  between in_word in_single after_backslash : Mode

-- The words of a command; `word` is what has been read of the current one.
unfoldable pub shell_words : Mode → Text → Text → List Text
shell_words between word [] = []
shell_words in_word word [] = word ∷ []
shell_words in_single word [] = word ∷ []
shell_words after_backslash word [] = word ∷ []
shell_words between word (c ∷ s) =
    let space = shell_words between [] s in
    let quote = shell_words in_single [] s in
    let escape = shell_words after_backslash [] s in
    let letter = shell_words in_word (c ∷ []) s in
    if nat_beq c 32
    then space
    else if nat_beq c 39
    then quote
    else if nat_beq c 92
    then escape
    else letter
shell_words in_word word (c ∷ s) =
    let space = shell_words between [] s in
    let quote = shell_words in_single word s in
    let escape = shell_words after_backslash word s in
    let letter = shell_words in_word (word ++ c ∷ []) s in
    if nat_beq c 32
    then word ∷ space
    else if nat_beq c 39
    then quote
    else if nat_beq c 92
    then escape
    else letter
shell_words in_single word (c ∷ s) =
    let closed = shell_words in_word word s in
    let letter = shell_words in_single (word ++ c ∷ []) s in if nat_beq c 39 then closed else letter
shell_words after_backslash word (c ∷ s) = shell_words in_word (word ++ c ∷ []) s

-- The text inside the quotes gives its characters back.
quoted_read :
    (s word rest : Text)
    → shell_words in_single word (shell_quote s ++ (39 ∷ rest))
      ≡ shell_words in_word (word ++ s) rest
unfolding shell_words shell_quote
quoted_read [] word rest = ap (λ z. shell_words in_word z rest) (sym (append-nil word))
quoted_read (c ∷ s) word rest = elim (Bool-cases (nat_beq c 39)) [
  | inl e ↦ rw ((nat_beq_iff c 39).0 e) (
      quoted_read s (word ++ 39 ∷ []) rest
      ∙ ap (λ z. shell_words in_word z rest) (append_assoc word (39 ∷ []) s))
  | inr e ↦ rw e (
      rw e (quoted_read s (word ++ c ∷ []) rest)
      ∙ ap (λ z. shell_words in_word z rest) (append_assoc word (c ∷ []) s))
]

-- Characters that mean themselves outside of quotes: letters, digits and `%+,-./:=@_`.
abbrev pub is_literal : ℕ → Bool
is_literal c =
    (leb 43 c && leb c 58)
    || (leb 64 c && leb c 90)
    || (leb 97 c && leb c 122)
    || nat_beq c 37
    || nat_beq c 61
    || nat_beq c 95

abbrev pub IsLiteral : Text → Type 0
IsLiteral = All (λ c. is_literal c ≡ true)

not_special :
    (c : ℕ)
    → is_literal c ≡ true
    → (nat_beq c 32 ≡ false) × (nat_beq c 39 ≡ false) × (nat_beq c 92 ≡ false)
not_special c h = ground arith

literal_read :
    (s word rest : Text)
    → IsLiteral s
    → shell_words in_word word (s ++ rest) ≡ shell_words in_word (word ++ s) rest
unfolding shell_words
literal_read [] word rest h = ap (λ z. shell_words in_word z rest) (sym (append-nil word))
literal_read (c ∷ s) word rest (h, hs) =
    let (a, b, d) = not_special c h in
    rw (a, b, d)
      (literal_read s (word ++ c ∷ []) rest hs
        ∙ ap (λ z. shell_words in_word z rest) (append_assoc word (c ∷ []) s))

-- The words before a point of the command, and the rest of it.
abbrev pub emit : Text → List Text → Text → List Text
emit word [] rest = shell_words in_word word rest
emit word (w ∷ ws) rest = word ∷ emit w ws rest

-- A part of a command that adds these words to those before it.
pub Renders : Text → List Text → Type 0
Renders part ws = (word rest : Text) → shell_words in_word word (part ++ rest) ≡ emit word ws rest

emit-append :
    (word : Text) (xs ys : List Text) (part rest : Text)
    → Renders part ys
    → emit word xs (part ++ rest) ≡ emit word (xs ++ ys) rest
unfolding Renders
emit-append word [] ys part rest h = h word rest
emit-append word (x ∷ xs) ys part rest h = ap (◌∷◌ word) (emit-append x xs ys part rest h)

pub Renders-append :
    (p q : Text) (xs ys : List Text) → Renders p xs → Renders q ys → Renders (p ++ q) (xs ++ ys)
unfolding Renders
Renders-append p q xs ys h k word rest =
    ap (λ z. shell_words in_word word z) (append_assoc p q rest)
    ∙ h word (q ++ rest)
    ∙ emit-append word xs ys q rest k

Renders-nil : Renders [] []
unfolding Renders
Renders-nil word rest = refl

abbrev pub when_given : Bool → List Text → List Text
when_given test ws = if test then ws else []

pub Renders-when :
    (test : Bool) (part : Text) (ws : List Text)
    → (test ≡ true → Renders part ws)
    → Renders (when test part) (when_given test ws)
Renders-when true part ws h = h refl
Renders-when false part ws h = Renders-nil

-- A space and a word.
pub word_read : (c : ℕ) (w : Text) → IsLiteral (c ∷ w) → Renders (32 ∷ c ∷ w) ((c ∷ w) ∷ [])
unfolding Renders shell_words
word_read c w (h, hs) word rest =
    let (a, b, d) = not_special c h in
    rw (a, b, d) (ap (◌∷◌ word) (literal_read w (c ∷ []) rest hs))

-- A space and a quoted text.
pub single_read : (s : Text) → Renders (codes " '" ++ (shell_quote s ++ codes "'")) (s ∷ [])
unfolding Renders shell_words
single_read s word rest = ap (◌∷◌ word) (
    ap (λ z. shell_words in_single [] z) (append_assoc (shell_quote s) (codes "'") rest)
    ∙ quoted_read s [] rest)

emit-end : (word : Text) (ws : List Text) → emit word ws [] ≡ word ∷ ws
unfolding shell_words
emit-end word [] = refl
emit-end word (w ∷ ws) = ap (◌∷◌ word) (emit-end w ws)

-- A command of a first word and parts that render the others is read as these words.
pub shell_words-Renders :
    (c : ℕ) (w part : Text) (ws : List Text)
    → IsLiteral (c ∷ w)
    → Renders part ws
    → shell_words between [] ((c ∷ w) ++ part) ≡ (c ∷ w) ∷ ws
unfolding Renders shell_words
shell_words-Renders c w part ws (h, hs) r =
    let (a, b, d) = not_special c h in
    rw (a, b, d)
      (literal_read w (c ∷ []) part hs
        ∙ ap (λ z. shell_words in_word (c ∷ w) z) (sym (append-nil part))
        ∙ r (c ∷ w) []
        ∙ emit-end (c ∷ w) ws)
