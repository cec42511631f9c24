-- ===== src/Engine/Rotation.antt =====
-- internal/engine/payloads.go: which payload each call of Next returns.
use native.Mathlib.Nat.{mod-one}
use perf_loadgen.Base.{
  ℕ, zero, suc, ◌+◌, ◌%◌, ◌<◌, ◌≤◌, ◌≡◌, refl, ap, sym, ◌∙◌, false, List, [], ◌∷◌, Option, arith,
  ltb, nat_beq, if◌then◌else◌, Bool-cases, inl, inr, length, get_or, Text, two64, add64,
}
use perf_loadgen.Engine.{PayloadPicker, advance, or_nil, next_payload}

module _ (read_file : Text → Option Text) where
  -- What the call after `k` others returns.
  unfoldable pub call : ℕ → PayloadPicker → Text
  call zero p = (next_payload read_file p).0
  call (suc k) p = call k (next_payload read_file p).1

  -- The `i`-th payload, cyclically: the contents of a file if there are files.
  abbrev pub cyclic : PayloadPicker → ℕ → Text
  cyclic p i =
      if ltb 0 (length p.files)
      then or_nil (read_file (get_or p.files (i % length p.files) []))
      else get_or p.payloads (i % length p.payloads) []

  one_payload :
      (ps : List Text) (i : ℕ) → length ps ≡ 1 → get_or ps 0 [] ≡ get_or ps (i % length ps) []
  one_payload ps i e = let m : i % length ps ≡ 0 = rw e (mod-one i) in rw m refl

  few_get : (ps : List Text) (i : ℕ) → length ps ≤ 1 → get_or ps (i % length ps) [] ≡ get_or ps 0 []
  few_get [] i few = refl
  few_get (x ∷ []) i few = sym (one_payload (x ∷ []) i refl)
  few_get (x ∷ y ∷ ps) i few = absurd (omega arith)

  no_wrap : (index k : ℕ) → index + suc k < two64 → add64 index 1 ≡ index + 1
  no_wrap index k h = omega arith

  no_payload : (ps : List Text) (i : ℕ) → length ps ≡ 0 → get_or ps i [] ≡ []
  no_payload [] i e = refl
  no_payload (x ∷ ps) i e = absurd (omega arith)

  without_files :
      (p : PayloadPicker)
      → ltb 0 (length p.files) ≡ false
      → (next_payload read_file p).0 ≡ cyclic p p.index
  unfolding next_payload
  without_files p files = elim (Bool-cases (nat_beq (length p.payloads) 0)) [
    | inl empty ↦ ground (
      arith,
      files,
      empty,
      no_payload p.payloads (p.index % length p.payloads) (ground (arith, empty)),
    )
    | inr more ↦ elim (Bool-cases (nat_beq (length p.payloads) 1)) [
      | inl single ↦
          ground
            (arith, files, more, single, one_payload p.payloads p.index (ground (arith, single)))
      | inr several ↦ ground (arith, files, more, several)
    ]
  ]

  next_cyclic : (p : PayloadPicker) → (next_payload read_file p).0 ≡ cyclic p p.index
  unfolding next_payload
  next_cyclic p = elim (Bool-cases (ltb 0 (length p.files))) [
    | inl files ↦ ground (arith, files)
    | inr none_given ↦ without_files p none_given
  ]

  -- What the next call finds: the same payloads, and the next index where there are several.
  index_room :
      (p : PayloadPicker) (k : ℕ)
      → p.index + suc k < two64
      → (next_payload read_file p).1.index + k < two64
  unfolding next_payload
  index_room p k h = ground arith

  moved :
      (p : PayloadPicker) (k : ℕ)
      → p.index + suc k < two64
      → (next_payload read_file p).1 ≡ advance p
      → cyclic (next_payload read_file p).1 ((next_payload read_file p).1.index + k)
        ≡ cyclic p (p.index + suc k)
  moved p k h e =
      ap (λ n. cyclic n (n.index + k)) e
      ∙ ap (λ i. cyclic p (i + k)) (no_wrap p.index k h)
      ∙ ap (cyclic p) (omega arith)

  stays :
      (p : PayloadPicker) (k : ℕ)
      → (next_payload read_file p).1 ≡ p
      → cyclic p (p.index + k) ≡ cyclic p (p.index + suc k)
      → cyclic (next_payload read_file p).1 ((next_payload read_file p).1.index + k)
        ≡ cyclic p (p.index + suc k)
  stays p k e same = ap (λ n. cyclic n (n.index + k)) e ∙ same

  few_same :
      (p : PayloadPicker) (i : ℕ)
      → ltb 0 (length p.files) ≡ false
      → length p.payloads ≤ 1
      → cyclic p i ≡ get_or p.payloads 0 []
  few_same p i none_given few = rw none_given (few_get p.payloads i few)

  -- The picker stands still with at most one payload, and advances otherwise.
  later_cyclic :
      (p : PayloadPicker) (k : ℕ)
      → p.index + suc k < two64
      → cyclic (next_payload read_file p).1 ((next_payload read_file p).1.index + k)
        ≡ cyclic p (p.index + suc k)
  unfolding next_payload
  later_cyclic p k h = elim (Bool-cases (ltb 0 (length p.files))) [
    | inl files ↦ moved p k h (ground (arith, files))
    | inr none_given ↦ elim (Bool-cases (nat_beq (length p.payloads) 0)) [
      | inl empty ↦ stays p k (ground (arith, none_given, empty)) (
          few_same p (p.index + k) none_given (ground (arith, empty))
          ∙ sym (few_same p (p.index + suc k) none_given (ground (arith, empty))))
      | inr more ↦ elim (Bool-cases (nat_beq (length p.payloads) 1)) [
        | inl single ↦ stays p k (ground (arith, none_given, more, single)) (
            few_same p (p.index + k) none_given (ground (arith, single))
            ∙ sym (few_same p (p.index + suc k) none_given (ground (arith, single))))
        | inr several ↦ moved p k h (ground (arith, none_given, more, several))
      ]
    ]
  ]

  -- Next hands out the payloads in turn: the call after `k` others returns the payload, or the
  -- contents of the file, at the position `k` past the index, cyclically. The index does not wrap.
  pub call-cyclic :
      (k : ℕ) (p : PayloadPicker) → p.index + k < two64 → call k p ≡ cyclic p (p.index + k)
  unfolding call
  call-cyclic zero p h = next_cyclic p ∙ ap (cyclic p) (omega arith)
  call-cyclic (suc k) p h =
      call-cyclic k (next_payload read_file p).1 (index_room p k h) ∙ later_cyclic p k h
