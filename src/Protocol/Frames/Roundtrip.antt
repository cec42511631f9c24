-- ===== src/Protocol/Frames/Roundtrip.antt =====
-- internal/protocol/websocket/runner.go: readFrame after writeFrame.
use perf_loadgen.Base.{
  ℕ, zero, suc, ◌+◌, ◌*◌, ◌/◌, ◌%◌, ◌≤◌, ◌<◌, ◌≡◌, refl, sym, ap, ◌∙◌, true, false, inl, inr,
  Bool-cases, List, [], ◌∷◌, ◌++◌, append_assoc, arith, ltb, leb, length, length-append, get_or,
  take, drop, take_append, drop_append, All, Result, ok, ◌>>=◌,
}
use perf_loadgen.Protocol.Frames.{
  Byte, xor_digits, with_top_bit, big_endian, of_big_endian, mask_from, length_bytes, write_frame,
  FrameError, max_frame_size, read_full, read_length, read_mask, read_body, read_frame,
}

abbrev power : ℕ → ℕ → ℕ
power b zero = 1
power b (suc n) = power b n * b

-- Twice the same mask changes nothing.
xor_digits-twice : (n a b : ℕ) → a < power 2 n → xor_digits n (xor_digits n a b) b ≡ a
unfolding xor_digits
xor_digits-twice zero a b h = omega arith
xor_digits-twice (suc n) a b h =
    let rest = xor_digits-twice n (a / 2) (b / 2) (omega arith) in
    let half : (xor_digits n (a / 2) (b / 2) * 2 + (a + b) % 2) / 2 ≡ xor_digits n (a / 2) (b / 2) =
      omega arith in
    rw half (omega (arith, rest))

abbrev pub AreBytes : List Byte → Type 0
AreBytes = All (λ b. b < 256)

mask_from-twice :
    (i : ℕ) (mask bs : List Byte) → AreBytes bs → mask_from i mask (mask_from i mask bs) ≡ bs
unfolding mask_from
mask_from-twice i mask [] h = refl
mask_from-twice i mask (b ∷ bs) (h, hs) =
    let first = xor_digits-twice 8 b (get_or mask (i % 4) 0) h in
    let rest = mask_from-twice (suc i) mask bs hs in cc

length-mask_from : (i : ℕ) (mask bs : List Byte) → length (mask_from i mask bs) ≡ length bs
unfolding mask_from
length-mask_from i mask [] = refl
length-mask_from i mask (b ∷ bs) = ap suc (length-mask_from (suc i) mask bs)

of_big_endian-append :
    (acc b : ℕ) (bs : List Byte) → of_big_endian acc (bs ++ b ∷ []) ≡ of_big_endian acc bs * 256 + b
unfolding of_big_endian
of_big_endian-append acc b [] = refl
of_big_endian-append acc b (c ∷ bs) = of_big_endian-append (acc * 256 + c) b bs

nothing_read : of_big_endian 0 [] ≡ 0
unfolding of_big_endian
nothing_read = refl

of_big_endian-big_endian : (k n : ℕ) → n < power 256 k → of_big_endian 0 (big_endian k n) ≡ n
unfolding big_endian
of_big_endian-big_endian zero n h = omega (arith, nothing_read)
of_big_endian-big_endian (suc k) n h = omega (
  arith,
  of_big_endian-append 0 (n % 256) (big_endian k (n / 256)),
  of_big_endian-big_endian k (n / 256) (omega arith),
)

length-big_endian : (k n : ℕ) → length (big_endian k n) ≡ k
unfolding big_endian
length-big_endian zero n = refl
length-big_endian (suc k) n =
    omega
      (arith, length-append (big_endian k (n / 256)) (n % 256 ∷ []), length-big_endian k (n / 256))

read_full-append :
    (xs ys : List Byte) (n : ℕ) → length xs ≡ n → read_full n (xs ++ ys) ≡ ok (xs, ys)
unfolding read_full
read_full-append xs ys n e =
    let l = length-append xs ys in
    let t : take n (xs ++ ys) ≡ xs = ap (λ k. take k (xs ++ ys)) (sym e) ∙ take_append xs ys in
    let d : drop n (xs ++ ys) ≡ ys = ap (λ k. drop k (xs ++ ys)) (sym e) ∙ drop_append xs ys in
    ground (arith, l, t, d)

-- What a reader finds in the length bytes of `n`.
abbrev Reads : ℕ → Byte → List Byte → Type 0
Reads n second more =
    (length_bytes n ≡ second ∷ more)
    × (leb 128 (second % 256) ≡ true)
    × ((rest : List Byte) → read_length (second % 128) (more ++ rest) ≡ ok (n, rest))

short_length : (n : ℕ) → n ≤ 125 → Reads n (with_top_bit (n % 256)) []
unfolding length_bytes read_length
short_length n h = (
  ground arith,
  ground arith,
  λ rest. let e : (128 + n % 256 % 128) % 128 ≡ n = omega arith in rw e (ground arith),
)

abbrev decoded : List Byte × List Byte → Result FrameError (ℕ × List Byte)
decoded r = ok (of_big_endian 0 r.0, r.1)

extended :
    (k n : ℕ) (rest : List Byte)
    → n < power 256 k
    → (read_full k (big_endian k n ++ rest) >>= decoded) ≡ ok (n, rest)
extended k n rest h =
    rw
      (
        read_full-append (big_endian k n) rest k (length-big_endian k n),
        of_big_endian-big_endian k n h,
      )
      refl

middle_length : (n : ℕ) → 125 < n → n ≤ 65535 → Reads n (with_top_bit 126) (big_endian 2 n)
unfolding length_bytes read_length
middle_length n lo hi = (ground arith, refl, λ rest. extended 2 n rest (omega arith))

long_length : (n : ℕ) → 65535 < n → n ≤ max_frame_size → Reads n (with_top_bit 127) (big_endian 8 n)
unfolding length_bytes read_length
long_length n lo hi = (ground arith, refl, λ rest. extended 8 n rest (omega arith))

length_lem :
    (n : ℕ) → n ≤ max_frame_size → (second : Byte) × (more : List Byte) × Reads n second more
length_lem n h = elim (Bool-cases (leb n 125)) [
  | inl small ↦ (with_top_bit (n % 256), [], short_length n (ground (arith, small)))
  | inr more ↦ elim (Bool-cases (leb n 65535)) [
    | inl middle ↦ (
      with_top_bit 126,
      big_endian 2 n,
      middle_length n (ground (arith, more)) (ground (arith, middle)),
    )
    | inr large ↦ (with_top_bit 127, big_endian 8 n, long_length n (ground (arith, large)) h)
  ]
]

body_lem :
    (mask payload rest : List Byte)
    → length mask ≡ 4
    → AreBytes payload
    → length payload ≤ max_frame_size
    → read_body true (length payload) (mask ++ (mask_from 0 mask payload ++ rest))
      ≡ ok (payload, rest)
unfolding read_body read_mask
body_lem mask payload rest four bytes small =
    let fits : ltb max_frame_size (length payload) ≡ false = ground (arith, small) in
    let m = read_full-append mask (mask_from 0 mask payload ++ rest) 4 four in
    let p =
      read_full-append (mask_from 0 mask payload) rest (length payload)
        (length-mask_from 0 mask payload) in
    let same = mask_from-twice 0 mask payload bytes in rw (fits, m, p, same) refl

-- What writeFrame puts on the connection, readFrame takes off it again: the same opcode and the
-- same payload, whatever the mask, and whatever follows on the connection stays there. The opcode
-- has four bits, the mask four bytes, and the payload at most 10 MiB.
pub read_frame-write_frame :
    (opcode : Byte) (mask payload rest : List Byte)
    → opcode < 16
    → length mask ≡ 4
    → AreBytes payload
    → length payload ≤ max_frame_size
    → read_frame (write_frame opcode mask payload ++ rest) ≡ ok (opcode, payload, rest)
unfolding read_frame write_frame
read_frame-write_frame opcode mask payload rest op four bytes small =
    let (second, more, (written, masked, read)) = length_lem (length payload) small in
    let code : (128 + opcode % 128) % 16 ≡ opcode = omega arith in
    let split =
      append_assoc more (mask ++ mask_from 0 mask payload) rest
      ∙ ap (λ t. more ++ t) (append_assoc mask (mask_from 0 mask payload) rest) in
    rw
      (
        written,
        split,
        read (mask ++ (mask_from 0 mask payload ++ rest)),
        masked,
        body_lem mask payload rest four bytes small,
        code,
      )
      refl
