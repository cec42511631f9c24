-- ===== src/Config/Files/Listing.antt =====
-- The payload files of a directory: the entries that are no directories, sorted by name.
use mathlib.Core.List.{Perm}
use mathlib.Core.List.Perm
use perf_loadgen.Base.{
  ◌≡◌, refl, inl, inr, Bool, true, false, List, [], ◌∷◌, arith, ltb, nat_beq, if◌then◌else◌,
  Bool-cases, Text, All,
}

-- The order of strings.
unfoldable pub text_le : Text → Text → Bool
text_le [] b = true
text_le (x ∷ a) [] = false
text_le (x ∷ a) (y ∷ b) = if ltb x y then true else if nat_beq x y then text_le a b else false

unfoldable pub insert_name : Text → List Text → List Text
insert_name n [] = n ∷ []
insert_name n (m ∷ ms) = if text_le n m then n ∷ m ∷ ms else m ∷ insert_name n ms

-- slices.Sort.
unfoldable pub sort_names : List Text → List Text
unfolding insert_name
sort_names [] = []
sort_names (n ∷ ns) = insert_name n (sort_names ns)

-- The names of the entries that are no directories, as the loop collects them.
unfoldable pub file_names : List (Text × Bool) → List Text
file_names [] = []
file_names ((n, true) ∷ es) = file_names es
file_names ((n, false) ∷ es) = n ∷ file_names es

unfoldable pub sorted_files : List (Text × Bool) → List Text
unfolding sort_names file_names
sorted_files es = sort_names (file_names es)

text_le_total : (a b : Text) → text_le a b ≡ false → text_le b a ≡ true
unfolding text_le
text_le_total [] b h = cc
text_le_total (x ∷ a) [] h = refl
text_le_total (x ∷ a) (y ∷ b) h = ground (arith, text_le_total a b)

text_le_trans : (a b c : Text) → text_le a b ≡ true → text_le b c ≡ true → text_le a c ≡ true
unfolding text_le
text_le_trans [] b c h k = refl
text_le_trans (x ∷ a) [] c h k = cc
text_le_trans (x ∷ a) (y ∷ b) [] h k = cc
text_le_trans (x ∷ a) (y ∷ b) (z ∷ c) h k = ground (arith, text_le_trans a b c)

abbrev pub IsSorted : List Text → Type 0
IsSorted [] = Unit {0}
IsSorted (n ∷ ns) = All (λ m. text_le n m ≡ true) ns × IsSorted ns

insert_name-perm : (n : Text) (ns : List Text) → Perm (insert_name n ns) (n ∷ ns)
unfolding insert_name
insert_name-perm n [] = Perm.refl (n ∷ [])
insert_name-perm n (m ∷ ms) = elim (Bool-cases (text_le n m)) [
  | inl first ↦ rw first (Perm.refl (n ∷ m ∷ ms))
  | inr later ↦ rw later (Perm.trans (Perm.cons m (insert_name-perm n ms)) (Perm.swap n m ms))
]

All-insert_name :
    (P : Text → Type 0) (n : Text) (ns : List Text) → P n → All P ns → All P (insert_name n ns)
unfolding insert_name
All-insert_name P n [] p a = (p, tt)
All-insert_name P n (m ∷ ms) p a = elim (Bool-cases (text_le n m)) [
  | inl first ↦ rw first (p, a)
  | inr later ↦ rw later (a.0, All-insert_name P n ms p a.1)
]

All-le :
    (n m : Text) (ns : List Text)
    → text_le n m ≡ true
    → All (λ k. text_le m k ≡ true) ns
    → All (λ k. text_le n k ≡ true) ns
All-le n m [] h a = tt
All-le n m (k ∷ ns) h a = (text_le_trans n m k h a.0, All-le n m ns h a.1)

insert_name-IsSorted : (n : Text) (ns : List Text) → IsSorted ns → IsSorted (insert_name n ns)
unfolding insert_name
insert_name-IsSorted n [] s = (tt, tt)
insert_name-IsSorted n (m ∷ ms) s = elim (Bool-cases (text_le n m)) [
  | inl first ↦ rw first ((first, All-le n m ms first s.0), s)
  | inr later ↦
      rw later (All-insert_name _ n ms (text_le_total n m later) s.0, insert_name-IsSorted n ms s.1)
]

sort_names_lem : (ns : List Text) → IsSorted (sort_names ns) × Perm (sort_names ns) ns
unfolding sort_names
sort_names_lem [] = (tt, Perm.refl [])
sort_names_lem (n ∷ ns) =
    let (sorted, perm) = sort_names_lem ns in
    (
      insert_name-IsSorted n (sort_names ns) sorted,
      Perm.trans (insert_name-perm n (sort_names ns)) (Perm.cons n perm),
    )

-- The payload names are those of the entries that are no directories, each as often as there, in
-- ascending order.
pub sorted_files_lem :
    (es : List (Text × Bool)) → IsSorted (sorted_files es) × Perm (sorted_files es) (file_names es)
unfolding sorted_files
sorted_files_lem es = sort_names_lem (file_names es)
