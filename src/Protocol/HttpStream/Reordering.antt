-- ===== src/Protocol/HttpStream/Reordering.antt =====
-- internal/protocol/httpstream/runner.go: Go visits the fields of a map in any order.
use perf_loadgen.Base.{
  ◌≡◌, refl, arith, Bool, true, false, ◌||◌, Text, codes, to_lower, ap, sym, ◌∙◌, append_assoc, ℕ,
  ◌+◌, ◌++◌, List, [], ◌∷◌, count_fields, is_space, join, not, if◌then◌else◌,
}
use perf_loadgen.Protocol.Json.{
  Json, array, object, Items, no_items, item, Fields, field, as_string,
}
use perf_loadgen.Protocol.HttpStream.Payload.{
  signals, detect_done, done_in_fields, elem, visible, or_nested, collect_preferred_text,
  text_of_items, text_of_fields,
}

-- The same value with the fields of its objects, at any depth, visited in another order.
mutual
  pub data Reordered : Json → Json → Type 0 where
    same : (v : Json) → Reordered v v
    in_array : {xs ys : Items} → ItemsReordered xs ys → Reordered (array xs) (array ys)
    in_object : {fs gs : Fields} → FieldsReordered fs gs → Reordered (object fs) (object gs)

  pub data ItemsReordered : Items → Items → Type 0 where
    no_item : ItemsReordered no_items no_items
    each :
        {v w : Json} {xs ys : Items}
        → Reordered v w
        → ItemsReordered xs ys
        → ItemsReordered (item v xs) (item w ys)

  pub data FieldsReordered : Fields → Fields → Type 0 where
    unchanged : (fs : Fields) → FieldsReordered fs fs
    keep :
        {k : Text} {v w : Json} {fs gs : Fields}
        → Reordered v w
        → FieldsReordered fs gs
        → FieldsReordered (field k v fs) (field k w gs)
    swap :
        (j k : Text) (v w : Json) (fs : Fields)
        → FieldsReordered (field j v (field k w fs)) (field k w (field j v fs))
    chain :
        {fs gs hs : Fields} → FieldsReordered fs gs → FieldsReordered gs hs → FieldsReordered fs hs

signals-Reordered :
    (marker k : Text) {v w : Json} → Reordered v w → signals marker k v ≡ signals marker k w
signals-Reordered marker k (same v) = refl
signals-Reordered marker k (in_array h) = refl
signals-Reordered marker k (in_object h) = refl

or_swap : (a b c : Bool) → (a || (b || c)) ≡ (b || (a || c))
or_swap true true c = refl
or_swap true false c = refl
or_swap false b c = refl

mutual
  unfolding detect_done

  in_value :
      (marker : Text) {v w : Json} → Reordered v w → detect_done marker v ≡ detect_done marker w
  in_value marker (same v) = refl
  in_value marker (in_array h) = in_items marker h
  in_value marker (in_object h) = in_fields marker h

  in_items :
      (marker : Text) {xs ys : Items}
      → ItemsReordered xs ys
      → detect_done marker (array xs) ≡ detect_done marker (array ys)
  in_items marker no_item = refl
  in_items marker (each h hs) = rw (in_value marker h, in_items marker hs) refl

  in_fields :
      (marker : Text) {fs gs : Fields}
      → FieldsReordered fs gs
      → detect_done marker (object fs) ≡ detect_done marker (object gs)
  in_fields marker (unchanged fs) = refl
  in_fields marker (keep {k} h hs) =
      rw (signals-Reordered marker (to_lower k) h, in_value marker h, in_fields marker hs) refl
  in_fields marker (swap j k v w fs) =
      or_swap (signals marker (to_lower j) v || detect_done marker v)
        (signals marker (to_lower k) w || detect_done marker w) (done_in_fields marker fs)
  in_fields marker (chain h hs) = in_fields marker h ∙ in_fields marker hs

-- The words of a list of texts.
abbrev words : List Text → ℕ
words [] = 0
words (s ∷ ss) = count_fields false s + words ss

words-append : (ss ts : List Text) → words (ss ++ ts) ≡ words ss + words ts
words-append [] ts = omega arith
words-append (s ∷ ss) ts = omega (arith, words-append ss ts)

-- A space parts what stands before it from what follows.
count_fields-space :
    (inside : Bool) (s t : Text)
    → count_fields inside (s ++ (32 ∷ t)) ≡ count_fields inside s + count_fields false t
unfolding count_fields
count_fields-space inside [] t = ground (arith)
count_fields-space inside (c ∷ s) t = ground (arith, count_fields-space (not (is_space c)) s t)

no_fields_in_nothing : count_fields false [] ≡ 0
unfolding count_fields
no_fields_in_nothing = refl

count_fields-join : (ss : List Text) → count_fields false (join (codes " ") ss) ≡ words ss
unfolding join
count_fields-join [] = no_fields_in_nothing
count_fields-join (s ∷ []) = omega arith
count_fields-join (s ∷ t ∷ ss) =
    ap (λ z. count_fields false z) (append_assoc s (32 ∷ []) (join (codes " ") (t ∷ ss)))
    ∙ count_fields-space false s (join (codes " ") (t ∷ ss))
    ∙ ap (λ n. count_fields false s + n) (count_fields-join (t ∷ ss))

as_string-Reordered : {v w : Json} → Reordered v w → as_string v ≡ as_string w
as_string-Reordered (same v) = refl
as_string-Reordered (in_array h) = refl
as_string-Reordered (in_object h) = refl

words-or_nested :
    (taken ss ts : List Text)
    → words ss ≡ words ts
    → words (or_nested taken ss) ≡ words (or_nested taken ts)
words-or_nested [] ss ts h = h
words-or_nested (t ∷ taken) ss ts h = refl

-- What one field gives.
abbrev text_of_field : List Text → Text → Json → List Text
text_of_field keys k v =
    or_nested (if elem (to_lower k) keys then visible (as_string v) else [])
      (collect_preferred_text keys v)

words_in_field :
    (keys : List Text) (k : Text) {v w : Json}
    → Reordered v w
    → words (collect_preferred_text keys v) ≡ words (collect_preferred_text keys w)
    → words (text_of_field keys k v) ≡ words (text_of_field keys k w)
words_in_field keys k {v} {w} h e = rw (as_string-Reordered h) (
    words-or_nested (if elem (to_lower k) keys then visible (as_string w) else [])
      (collect_preferred_text keys v) (collect_preferred_text keys w) e)

words_swap : (ss ts us : List Text) → words (ss ++ (ts ++ us)) ≡ words (ts ++ (ss ++ us))
words_swap ss ts us = omega (
  arith,
  words-append ss (ts ++ us),
  words-append ts us,
  words-append ts (ss ++ us),
  words-append ss us,
)

mutual
  unfolding collect_preferred_text

  words_in_value :
      (keys : List Text) {v w : Json}
      → Reordered v w
      → words (collect_preferred_text keys v) ≡ words (collect_preferred_text keys w)
  words_in_value keys (same v) = refl
  words_in_value keys (in_array h) = words_in_items keys h
  words_in_value keys (in_object h) = words_in_fields keys h

  words_in_items :
      (keys : List Text) {xs ys : Items}
      → ItemsReordered xs ys
      → words (text_of_items keys xs) ≡ words (text_of_items keys ys)
  words_in_items keys no_item = refl
  words_in_items keys (each {v} {w} {xs} {ys} h hs) = omega (
    arith,
    words-append (collect_preferred_text keys v) (text_of_items keys xs),
    words-append (collect_preferred_text keys w) (text_of_items keys ys),
    words_in_value keys h,
    words_in_items keys hs,
  )

  words_in_fields :
      (keys : List Text) {fs gs : Fields}
      → FieldsReordered fs gs
      → words (text_of_fields keys fs) ≡ words (text_of_fields keys gs)
  words_in_fields keys (unchanged fs) = refl
  words_in_fields keys (keep {k} {v} {w} {fs} {gs} h hs) =
      words-append (text_of_field keys k v) (text_of_fields keys fs)
      ∙ ap (λ n. n + words (text_of_fields keys fs))
          (words_in_field keys k h (words_in_value keys h))
      ∙ ap (λ n. words (text_of_field keys k w) + n) (words_in_fields keys hs)
      ∙ sym (words-append (text_of_field keys k w) (text_of_fields keys gs))
  words_in_fields keys (swap j k v w fs) =
      words_swap (text_of_field keys j v) (text_of_field keys k w) (text_of_fields keys fs)
  words_in_fields keys (chain h hs) = words_in_fields keys h ∙ words_in_fields keys hs

-- Whether a payload ends the stream, and the number of words of its text, do not depend on the order
-- in which the fields of its objects are visited.
pub detect_done-Reordered :
    (marker : Text) (keys : List Text) (v w : Json)
    → Reordered v w
    → (detect_done marker v ≡ detect_done marker w)
      × (count_fields false (join (codes " ") (collect_preferred_text keys v))
          ≡ count_fields false (join (codes " ") (collect_preferred_text keys w)))
detect_done-Reordered marker keys v w h = (
  in_value marker h,
  count_fields-join (collect_preferred_text keys v)
      ∙ words_in_value keys h
      ∙ sym (count_fields-join (collect_preferred_text keys w)),
)
