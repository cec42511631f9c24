-- ===== src/Cli/Roundtrip.antt =====
-- internal/cli/parse.go: headers written in the form that parseHeaders reads.
use perf_loadgen.Base.{
  ℕ, ◌≡◌, refl, ap, sym, ◌∙◌, false, List, [], ◌∷◌, ◌++◌, map, append-nil, append_assoc, none, some,
  Text, codes, nat_beq, is_empty, is_space, trim_space, split, cut, join, All, All-append, lookup,
  put_fresh, text_eq, ok, Starts, Ends, Starts-kept, Ends-kept, trimmed-Starts, trimmed-Ends,
  Ends-append, trim_space-first,
}
use perf_loadgen.Cli.Lists.{parse_header, parse_pairs, parse_headers}
use perf_loadgen.Cli.Headers.{stored_on}

abbrev Lacks : ℕ → Text → Type 0
Lacks sep = All (λ c. nat_beq c sep ≡ false)

-- A header that can stand in the list: trimmed, with a name that is not empty and has no colon, and
-- without commas.
abbrev pub IsField : Text × Text → Type 0
IsField (key, value) =
    (is_empty key ≡ false)
    × (trim_space key ≡ key)
    × Lacks 58 key
    × Lacks 44 key
    × (trim_space value ≡ value)
    × Lacks 44 value

abbrev pub render_header : Text × Text → Text
render_header (key, value) = key ++ (58 ∷ value)

abbrev pub render_headers : List (Text × Text) → Text
render_headers headers = join (codes ",") (map render_header headers)

-- Splitting at a separator that the parts lack undoes joining with it.
split-last : (w : Text) → Lacks 44 w → split 44 w ≡ w ∷ []
unfolding split
split-last [] h = refl
split-last (c ∷ w) (h, hs) = rw (h, split-last w hs) refl

split-first : (w rest : Text) → Lacks 44 w → split 44 (w ++ (44 ∷ rest)) ≡ w ∷ split 44 rest
unfolding split
split-first [] rest h = refl
split-first (c ∷ w) rest (h, hs) = rw (h, split-first w rest hs) refl

pub split-join :
    (w : Text) (ws : List Text)
    → All (Lacks 44) (w ∷ ws)
    → split 44 (join (codes ",") (w ∷ ws)) ≡ w ∷ ws
unfolding join
split-join w [] (h, _) = split-last w h
split-join w (v ∷ ws) (h, hs) =
    ap (λ z. split 44 z) (append_assoc w (44 ∷ []) (join (codes ",") (v ∷ ws)))
    ∙ split-first w (join (codes ",") (v ∷ ws)) h
    ∙ ap (◌∷◌ w) (split-join v ws hs)

cut-first : (key value : Text) → Lacks 58 key → cut 58 (key ++ (58 ∷ value)) ≡ some (key, value)
unfolding cut
cut-first [] value h = refl
cut-first (c ∷ key) value (h, hs) = rw (h, cut-first key value hs) refl

-- What begins and ends without white space is trimmed.
kept : (s : Text) → Starts is_space s → Ends is_space s → trim_space s ≡ s
unfolding trim_space
kept s h k = rw (Starts-kept is_space s h) (Ends-kept is_space s k)

colon-Ends : (value : Text) → trim_space value ≡ value → Ends is_space (58 ∷ value)
unfolding is_space
colon-Ends [] h = refl
colon-Ends (c ∷ value) h =
    Ends-append is_space (58 ∷ []) (c ∷ value) refl (trimmed-Ends (c ∷ value) h)

render-kept : (h : Text × Text) → IsField h → trim_space (render_header h) ≡ render_header h
render-kept (key, value) (full, trimmed, _, _, k, _) =
    kept (key ++ (58 ∷ value)) (starts key full (trimmed-Starts key trimmed))
      (Ends-append is_space key (58 ∷ value) refl (colon-Ends value k))
  where
    starts :
        (key : Text)
        → is_empty key ≡ false
        → Starts is_space key
        → Starts is_space (key ++ (58 ∷ value))
    starts [] h s = cc
    starts (c ∷ key) h s = s

render-full : (h : Text × Text) → IsField h → is_empty (trim_space (render_header h)) ≡ false
render-full (key, value) f = rw (render-kept (key, value) f) (nonempty key f.0)
  where
    nonempty : (key : Text) → is_empty key ≡ false → is_empty (key ++ (58 ∷ value)) ≡ false
    nonempty [] h = refl
    nonempty (c ∷ key) h = refl

rendered :
    (key value : Text) → IsField (key, value) → parse_header (key ++ (58 ∷ value)) ≡ ok (key, value)
unfolding parse_header
rendered key value (full, trimmed, c, _, k, _) = rw (cut-first key value c, trimmed, full, k) refl

parse_header-render :
    (h : Text × Text) → IsField h → parse_header (trim_space (render_header h)) ≡ ok h
parse_header-render (key, value) f =
    ap parse_header (render-kept (key, value) f) ∙ rendered key value f

render-Lacks : (h : Text × Text) → IsField h → Lacks 44 (render_header h)
render-Lacks (key, value) (_, _, _, c, _, d) =
    All-append (λ c. nat_beq c 44 ≡ false) key (58 ∷ value) c (refl, d)

parts-Lack :
    (headers : List (Text × Text))
    → All IsField headers
    → All (Lacks 44) (map render_header headers)
parts-Lack [] f = tt
parts-Lack (h ∷ headers) (f, fs) = (render-Lacks h f, parts-Lack headers fs)

-- Each key is new to what stands before it.
abbrev pub IsFresh : List (Text × Text) → List (Text × Text) → Type 0
IsFresh before [] = Unit
IsFresh before (h ∷ headers) = (lookup h.0 before ≡ none) × IsFresh (before ++ h ∷ []) headers

parse_pairs-render :
    (before headers : List (Text × Text))
    → All IsField headers
    → IsFresh before headers
    → parse_pairs before (map render_header headers) ≡ ok (before ++ headers)
unfolding parse_pairs
parse_pairs-render before [] f h = ap ok (sym (append-nil before))
parse_pairs-render before (h ∷ headers) (f, fs) (fresh, hs) =
    stored_on before (render_header h) (map render_header headers) h (render-full h f)
      (parse_header-render h f)
    ∙ rw (put_fresh h.0 h.1 before fresh) (
        parse_pairs-render (before ++ h ∷ []) headers fs hs
        ∙ ap ok (append_assoc before (h ∷ []) headers))

first_char :
    (c : ℕ) (w : Text) (ws : List Text)
    → (rest : Text) × (join (codes ",") ((c ∷ w) ∷ ws) ≡ c ∷ rest)
unfolding join
first_char c w [] = (w, refl)
first_char c w (v ∷ ws) = (_, refl)

not_blank :
    (h : Text × Text) (headers : List (Text × Text))
    → IsField h
    → is_empty (trim_space (render_headers (h ∷ headers))) ≡ false
not_blank ([], value) headers f = let h = f.0 in cc
not_blank (c ∷ key, value) headers (_, trimmed, _, _, _, _) =
    let (rest, e) = first_char c (key ++ (58 ∷ value)) (map render_header headers) in
    rw e (trim_space-first c rest (trimmed-Starts (c ∷ key) trimmed))

-- Headers with trimmed names and values, no commas, no colon in a name and no name twice are read
-- back as they were written.
pub parse_headers-render_headers :
    (headers : List (Text × Text))
    → All IsField headers
    → IsFresh [] headers
    → parse_headers (render_headers headers) ≡ ok headers
unfolding parse_headers join
parse_headers-render_headers [] f h = refl
parse_headers-render_headers (h ∷ headers) f fresh =
    rw
      (
        not_blank h headers f.0,
        split-join (render_header h) (map render_header headers) (parts-Lack (h ∷ headers) f),
      )
      (parse_pairs-render [] (h ∷ headers) f fresh)
