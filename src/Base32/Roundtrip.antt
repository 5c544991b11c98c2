-- ===== src/Base32/Roundtrip.antt =====
-- Decoding what src/util/Strings.cpp encodes.
use teilpunkt.Base.{
  ℕ, ◌+◌, suc, sym, ◌≤◌, ◌*◌, ◌/◌, length, take, ◌≡◌, refl, ap, ◌∙◌, Bool, true, false, ◌||◌, List,
  [], ◌∷◌, ◌++◌, map, Str, arith,
}
use teilpunkt.Base32.{
  Byte, table_char, base32_to_char, bits_of_chunk, bytes_of_chunk, encode_chunks, base32_encode,
  base32_decode,
}

abbrev five_bits : Bool → Bool → Bool → Bool → Bool → Byte
five_bits a b c d e = record {
  b7 = false;
  b6 = false;
  b5 = false;
  b4 = a;
  b3 = b;
  b2 = c;
  b1 = d;
  b0 = e;
}

base32_to_char-table_char :
    (a b c d e : Bool) → base32_to_char (table_char (five_bits a b c d e)) ≡ five_bits a b c d e
unfolding base32_to_char table_char
base32_to_char-table_char true true true true true = refl
base32_to_char-table_char true true true true false = refl
base32_to_char-table_char true true true false true = refl
base32_to_char-table_char true true true false false = refl
base32_to_char-table_char true true false true true = refl
base32_to_char-table_char true true false true false = refl
base32_to_char-table_char true true false false true = refl
base32_to_char-table_char true true false false false = refl
base32_to_char-table_char true false true true true = refl
base32_to_char-table_char true false true true false = refl
base32_to_char-table_char true false true false true = refl
base32_to_char-table_char true false true false false = refl
base32_to_char-table_char true false false true true = refl
base32_to_char-table_char true false false true false = refl
base32_to_char-table_char true false false false true = refl
base32_to_char-table_char true false false false false = refl
base32_to_char-table_char false true true true true = refl
base32_to_char-table_char false true true true false = refl
base32_to_char-table_char false true true false true = refl
base32_to_char-table_char false true true false false = refl
base32_to_char-table_char false true false true true = refl
base32_to_char-table_char false true false true false = refl
base32_to_char-table_char false true false false true = refl
base32_to_char-table_char false true false false false = refl
base32_to_char-table_char false false true true true = refl
base32_to_char-table_char false false true true false = refl
base32_to_char-table_char false false true false true = refl
base32_to_char-table_char false false true false false = refl
base32_to_char-table_char false false false true true = refl
base32_to_char-table_char false false false true false = refl
base32_to_char-table_char false false false false true = refl
base32_to_char-table_char false false false false false = refl

or_false : (b : Bool) → b || false ≡ b
or_false true = refl
or_false false = refl

decode_step :
    (c0 c1 c2 c3 c4 c5 c6 c7 : ℕ) (rest : Str)
    → base32_decode (c0 ∷ c1 ∷ c2 ∷ c3 ∷ c4 ∷ c5 ∷ c6 ∷ c7 ∷ rest)
      ≡ bytes_of_chunk
          (base32_to_char c0)
          (base32_to_char c1)
          (base32_to_char c2)
          (base32_to_char c3)
          (base32_to_char c4)
          (base32_to_char c5)
          (base32_to_char c6)
          (base32_to_char c7)
        ++ base32_decode rest
decode_step c0 c1 c2 c3 c4 c5 c6 c7 rest = unfold base32_decode in refl

module _ (x0 x1 x2 x3 x4 : Byte) where
  bits_of_chunk_lem :
      bits_of_chunk x0 x1 x2 x3 x4
      ≡ five_bits x0.b7 x0.b6 x0.b5 x0.b4 x0.b3
        ∷ five_bits x0.b2 x0.b1 x0.b0 x1.b7 x1.b6
        ∷ five_bits x1.b5 x1.b4 x1.b3 x1.b2 x1.b1
        ∷ five_bits x1.b0 x2.b7 x2.b6 x2.b5 x2.b4
        ∷ five_bits x2.b3 x2.b2 x2.b1 x2.b0 x3.b7
        ∷ five_bits x3.b6 x3.b5 x3.b4 x3.b3 x3.b2
        ∷ five_bits x3.b1 x3.b0 x4.b7 x4.b6 x4.b5
        ∷ five_bits x4.b4 x4.b3 x4.b2 x4.b1 x4.b0
        ∷ []
  unfolding bits_of_chunk
  bits_of_chunk_lem = simp or_false

  bytes_of_chunk_lem :
      bytes_of_chunk
        (five_bits x0.b7 x0.b6 x0.b5 x0.b4 x0.b3)
        (five_bits x0.b2 x0.b1 x0.b0 x1.b7 x1.b6)
        (five_bits x1.b5 x1.b4 x1.b3 x1.b2 x1.b1)
        (five_bits x1.b0 x2.b7 x2.b6 x2.b5 x2.b4)
        (five_bits x2.b3 x2.b2 x2.b1 x2.b0 x3.b7)
        (five_bits x3.b6 x3.b5 x3.b4 x3.b3 x3.b2)
        (five_bits x3.b1 x3.b0 x4.b7 x4.b6 x4.b5)
        (five_bits x4.b4 x4.b3 x4.b2 x4.b1 x4.b0)
      ≡ x0 ∷ x1 ∷ x2 ∷ x3 ∷ x4 ∷ []
  unfolding bytes_of_chunk
  bytes_of_chunk_lem = simp or_false

  decode_chunk :
      (rest : Str)
      → base32_decode (map table_char (bits_of_chunk x0 x1 x2 x3 x4) ++ rest)
        ≡ x0 ∷ x1 ∷ x2 ∷ x3 ∷ x4 ∷ base32_decode rest
  decode_chunk rest =
      ap (λ bits. base32_decode (map table_char bits ++ rest)) bits_of_chunk_lem
      ∙ decode_step _ _ _ _ _ _ _ _ rest
      ∙ simp base32_to_char-table_char (ap (◌++ base32_decode rest) bytes_of_chunk_lem)

-- The bytes that fill whole chunks of five.
abbrev whole_chunks : List Byte → List Byte
whole_chunks pin = take (length pin / 5 * 5) pin

encode_step :
    (x0 x1 x2 x3 x4 : Byte) (rest : List Byte)
    → encode_chunks (x0 ∷ x1 ∷ x2 ∷ x3 ∷ x4 ∷ rest)
      ≡ map table_char (bits_of_chunk x0 x1 x2 x3 x4) ++ encode_chunks rest
encode_step x0 x1 x2 x3 x4 rest = unfold encode_chunks in refl

decode-encode_chunks : (pin : List Byte) → base32_decode (encode_chunks pin) ≡ whole_chunks pin
decode-encode_chunks (x0 ∷ x1 ∷ x2 ∷ x3 ∷ x4 ∷ rest) =
    let chunk : List Byte → List Byte = λ xs. x0 ∷ x1 ∷ x2 ∷ x3 ∷ x4 ∷ xs in
    let count : suc (suc (suc (suc (suc (length rest))))) / 5 * 5
        ≡ suc (suc (suc (suc (suc (length rest / 5 * 5))))) =
      omega arith in
    ap base32_decode (encode_step x0 x1 x2 x3 x4 rest)
    ∙ decode_chunk x0 x1 x2 x3 x4 (encode_chunks rest)
    ∙ ap chunk (decode-encode_chunks rest)
    ∙ sym (ap (λ n. take n (chunk rest)) count)
decode-encode_chunks (x0 ∷ x1 ∷ x2 ∷ x3 ∷ []) = unfold encode_chunks base32_decode in refl
decode-encode_chunks (x0 ∷ x1 ∷ x2 ∷ []) = unfold encode_chunks base32_decode in refl
decode-encode_chunks (x0 ∷ x1 ∷ []) = unfold encode_chunks base32_decode in refl
decode-encode_chunks (x0 ∷ []) = unfold encode_chunks base32_decode in refl
decode-encode_chunks [] = unfold encode_chunks base32_decode in refl

length-chunk :
    (x0 x1 x2 x3 x4 : Byte) (rest : List Byte)
    → length (encode_chunks (x0 ∷ x1 ∷ x2 ∷ x3 ∷ x4 ∷ rest)) ≡ length (encode_chunks rest) + 8
length-chunk x0 x1 x2 x3 x4 rest =
    ap length (encode_step x0 x1 x2 x3 x4 rest) ∙ (unfold bits_of_chunk in omega arith)

length-encode_chunks : (pin : List Byte) → length (encode_chunks pin) ≡ length pin / 5 * 8
length-encode_chunks (x0 ∷ x1 ∷ x2 ∷ x3 ∷ x4 ∷ rest) =
    omega (arith, length-chunk x0 x1 x2 x3 x4 rest, length-encode_chunks rest)
length-encode_chunks (x0 ∷ x1 ∷ x2 ∷ x3 ∷ []) = unfold encode_chunks in refl
length-encode_chunks (x0 ∷ x1 ∷ x2 ∷ []) = unfold encode_chunks in refl
length-encode_chunks (x0 ∷ x1 ∷ []) = unfold encode_chunks in refl
length-encode_chunks (x0 ∷ []) = unfold encode_chunks in refl
length-encode_chunks [] = unfold encode_chunks in refl

-- Decoding what was encoded, into a buffer with room for eight characters for each five bytes, gives
-- back the bytes, but for up to four at the end that fill no chunk of five.
pub base32_decode-base32_encode :
    (pin : List Byte) (olen : ℕ)
    → length pin / 5 * 8 ≤ olen
    → base32_decode (base32_encode pin olen) ≡ take (length pin / 5 * 5) pin
base32_decode-base32_encode pin olen room =
    let fits : base32_encode pin olen ≡ encode_chunks pin =
      unfold base32_encode in ground (arith, length-encode_chunks pin) in
    ap base32_decode fits ∙ decode-encode_chunks pin
