-- ===== src/Protocol/Frames.antt =====
-- internal/protocol/websocket/runner.go: frames of RFC 6455, written and read as lists of bytes.
pub mod Roundtrip
use perf_loadgen.Base.{
  ℕ, zero, suc, ◌+◌, ◌*◌, ◌/◌, ◌%◌, Bool, true, false, not, List, [], ◌∷◌, ◌++◌, Option, none, some,
  ltb, leb, nat_beq, if◌then◌else◌, length, get_or, take, drop, Result, ok, err, ◌>>=◌,
}

abbrev pub Byte : Type 0
Byte = ℕ

-- `a ^ b` on the lowest `n` digits.
unfoldable pub xor_digits : ℕ → ℕ → ℕ → ℕ
xor_digits zero a b = 0
xor_digits (suc n) a b = xor_digits n (a / 2) (b / 2) * 2 + (a + b) % 2

abbrev pub xor_byte : Byte → Byte → Byte
xor_byte a b = xor_digits 8 a b

-- `0x80 | b`.
abbrev pub with_top_bit : Byte → Byte
with_top_bit b = 128 + b % 128

-- The lowest `k` bytes of a number, the highest first: binary.BigEndian.
unfoldable pub big_endian : ℕ → ℕ → List Byte
big_endian zero n = []
big_endian (suc k) n = big_endian k (n / 256) ++ n % 256 ∷ []

unfoldable pub of_big_endian : ℕ → List Byte → ℕ
of_big_endian acc [] = acc
of_big_endian acc (b ∷ bs) = of_big_endian (acc * 256 + b) bs

-- The loop `masked[i] = payload[i] ^ mask[i%4]`, from an index on.
unfoldable pub mask_from : ℕ → List Byte → List Byte → List Byte
mask_from i mask [] = []
mask_from i mask (b ∷ bs) = xor_byte b (get_or mask (i % 4) 0) ∷ mask_from (suc i) mask bs

unfoldable pub length_bytes : ℕ → List Byte
unfolding big_endian
length_bytes n =
    if leb n 125
    then with_top_bit (n % 256) ∷ []
    else if leb n 65535
    then with_top_bit 126 ∷ big_endian 2 n
    else with_top_bit 127 ∷ big_endian 8 n

-- `writeFrame`, for the four random bytes of the mask.
unfoldable pub write_frame : Byte → List Byte → List Byte → List Byte
unfolding length_bytes mask_from
write_frame opcode mask payload =
    with_top_bit opcode ∷ length_bytes (length payload) ++ (mask ++ mask_from 0 mask payload)

-- io.EOF before the first byte of a part, io.ErrUnexpectedEOF within it.
pub data FrameError : Type 0 where
  end_of_file unexpected_end : FrameError
  too_large : ℕ → FrameError

abbrev pub max_frame_size : ℕ
max_frame_size = 10 * 1024 * 1024

-- io.ReadFull: the bytes and the rest of the stream.
unfoldable pub read_full : ℕ → List Byte → Result FrameError (List Byte × List Byte)
read_full n stream =
    if ltb (length stream) n
    then err (if nat_beq (length stream) 0 then end_of_file else unexpected_end)
    else ok (take n stream, drop n stream)

-- The payload length, after the second byte of the header.
unfoldable pub read_length : ℕ → List Byte → Result FrameError (ℕ × List Byte)
unfolding read_full of_big_endian
read_length short stream =
    if nat_beq short 126
    then read_full 2 stream >>= (λ r. ok (of_big_endian 0 r.0, r.1))
    else if nat_beq short 127
    then read_full 8 stream >>= (λ r. ok (of_big_endian 0 r.0, r.1))
    else ok (short, stream)

unfoldable pub read_mask : Bool → List Byte → Result FrameError (List Byte × List Byte)
unfolding read_full
read_mask masked stream = if masked then read_full 4 stream else ok (0 ∷ 0 ∷ 0 ∷ 0 ∷ [], stream)

-- The part after the header.
unfoldable pub read_body : Bool → ℕ → List Byte → Result FrameError (List Byte × List Byte)
unfolding read_mask read_full mask_from
read_body masked size stream =
    if ltb max_frame_size size
    then err (too_large size)
    else read_mask masked stream
      >>= (λ m. read_full size m.1 >>= (λ p. ok (if masked then mask_from 0 m.0 p.0 else p.0, p.1)))

-- `readFrame`: the opcode, the payload and the rest of the stream.
unfoldable pub read_frame : List Byte → Result FrameError (Byte × List Byte × List Byte)
unfolding read_length read_body
read_frame (first ∷ second ∷ stream) =
    read_length (second % 128) stream
    >>= (λ l. read_body (leb 128 (second % 256)) l.0 l.1 >>= (λ p. ok (first % 16, p.0, p.1)))
read_frame (first ∷ []) = err unexpected_end
read_frame [] = err end_of_file
