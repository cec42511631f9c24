-- ===== src/Output/Repeat.antt =====
-- internal/output/agent.go: the arguments that the command of buildRetestCommand stands for.
use perf_loadgen.Base.{
  ◌≡◌, refl, ap, sym, ◌∙◌, Bool, true, false, ◌&&◌, Bool-cases, inl, inr, List, [], ◌∷◌, ◌++◌, map,
  Text, codes, nat_beq, join, All,
}
use perf_loadgen.Cli.Roundtrip.{render_header, render_headers}
use perf_loadgen.Output.Retest.{shell_quote, in_quotes, bare, quoted_header}
use perf_loadgen.Output.Shell.{
  is_literal, IsLiteral, Renders, Renders-append, word_read, single_read,
}

-- A text that can stand in a command without quotes.
abbrev pub all_literal : Text → Bool
all_literal [] = true
all_literal (c ∷ w) = is_literal c && all_literal w

abbrev pub is_word : Text → Bool
is_word [] = false
is_word (c ∷ w) = all_literal (c ∷ w)

abbrev pub IsWord : Text → Type 0
IsWord w = is_word w ≡ true

pub all_literal-IsLiteral : (w : Text) → all_literal w ≡ true → IsLiteral w
all_literal-IsLiteral [] h = tt
all_literal-IsLiteral (c ∷ w) h =
    let (a, b) = both_true (is_literal c) (all_literal w) h in (a, all_literal-IsLiteral w b)
  where
    both_true : (a b : Bool) → (a && b) ≡ true → (a ≡ true) × (b ≡ true)
    both_true true b h = (refl, h)
    both_true false b h = cc

pub space_word : (w : Text) → IsWord w → Renders (32 ∷ w) (w ∷ [])
space_word [] h = cc
space_word (c ∷ w) h = word_read c w (all_literal-IsLiteral (c ∷ w) h)

pub bare_read :
    (flag value : Text)
    → IsWord flag
    → IsWord value
    → Renders (bare (32 ∷ flag) value) (flag ∷ value ∷ [])
bare_read flag value h k =
    Renders-append (32 ∷ flag) (32 ∷ value) (flag ∷ []) (value ∷ []) (space_word flag h)
      (space_word value k)

pub quotes_read :
    (flag s : Text) → IsWord flag → Renders (in_quotes (32 ∷ flag) (shell_quote s)) (flag ∷ s ∷ [])
quotes_read flag s h =
    Renders-append (32 ∷ flag) (codes " '" ++ (shell_quote s ++ codes "'")) (flag ∷ []) (s ∷ [])
      (space_word flag h) (single_read s)

-- Quoting leaves a text without quotes, and acts on each part of a list.
shell_quote-append : (s t : Text) → shell_quote (s ++ t) ≡ shell_quote s ++ shell_quote t
unfolding shell_quote
shell_quote-append [] t = refl
shell_quote-append (c ∷ s) t = elim (Bool-cases (nat_beq c 39)) [
  | inl e ↦ rw (e, shell_quote-append s t) refl
  | inr e ↦ rw (e, shell_quote-append s t) refl
]

abbrev pub LacksQuote : Text → Type 0
LacksQuote = All (λ c. nat_beq c 39 ≡ false)

shell_quote-same : (s : Text) → LacksQuote s → shell_quote s ≡ s
unfolding shell_quote
shell_quote-same [] h = refl
shell_quote-same (c ∷ s) (h, hs) = rw (h, shell_quote-same s hs) refl

shell_quote-join :
    (ws : List Text) → shell_quote (join (codes ",") ws) ≡ join (codes ",") (map shell_quote ws)
unfolding join shell_quote
shell_quote-join [] = refl
shell_quote-join (w ∷ []) = refl
shell_quote-join (w ∷ v ∷ ws) =
    shell_quote-append (w ++ codes ",") (join (codes ",") (v ∷ ws))
    ∙ ap (λ z. z ++ shell_quote (join (codes ",") (v ∷ ws))) (shell_quote-append w (codes ","))
    ∙ ap (λ z. shell_quote w ++ codes "," ++ z) (shell_quote-join (v ∷ ws))

-- A list of keys is its own quoted form.
keys_quoted : (ws : List Text) → All LacksQuote ws → map shell_quote ws ≡ ws
keys_quoted [] h = refl
keys_quoted (w ∷ ws) (h, hs) = rw (shell_quote-same w h, keys_quoted ws hs) refl

pub join_quoted :
    (ws : List Text) → All LacksQuote ws → shell_quote (join (codes ",") ws) ≡ join (codes ",") ws
join_quoted ws h = shell_quote-join ws ∙ ap (join (codes ",")) (keys_quoted ws h)

headers_quoted :
    (headers : List (Text × Text))
    → All (λ h. LacksQuote h.0) headers
    → map quoted_header headers ≡ map shell_quote (map render_header headers)
unfolding shell_quote
headers_quoted [] h = refl
headers_quoted ((key, value) ∷ headers) (h, hs) =
    rw (shell_quote-append key (58 ∷ value), shell_quote-same key h, headers_quoted headers hs) refl

pub headers_text :
    (headers : List (Text × Text))
    → All (λ h. LacksQuote h.0) headers
    → join (codes ",") (map quoted_header headers) ≡ shell_quote (render_headers headers)
headers_text headers h =
    ap (join (codes ",")) (headers_quoted headers h)
    ∙ sym (shell_quote-join (map render_header headers))
