-- ===== src/Base32.antt =====
-- Base32Encode and Base32Decode of src/util/Strings.cpp, for the keys of the time-based codes. A
-- `uint8_t` is its eight bits; what a shift moves out of them is lost on the assignment.
pub mod Roundtrip
mod Tests
use teilpunkt.Base.{
  ℕ, zero, suc, ◌+◌, ◌-◌, ◌*◌, ◌/◌, ◌%◌, ◌==◌, ltb, leb, Bool, true, false, ◌&&◌, ◌||◌, Option,
  none, some, List, [], ◌∷◌, ◌++◌, Str, str, length, take, get_elem?, map, if◌then◌else◌,
}

-- The bits from the highest to the lowest.
pub record Byte : Type 0 where
  pub b7 : Bool
  pub b6 : Bool
  pub b5 : Bool
  pub b4 : Bool
  pub b3 : Bool
  pub b2 : Bool
  pub b1 : Bool
  pub b0 : Bool

abbrev pub bit : Bool → ℕ
bit true = 1
bit false = 0

abbrev pub to_nat : Byte → ℕ
to_nat x =
    128 * bit x.b7
    + 64 * bit x.b6
    + 32 * bit x.b5
    + 16 * bit x.b4
    + 8 * bit x.b3
    + 4 * bit x.b2
    + 2 * bit x.b1
    + bit x.b0

abbrev odd : ℕ → Bool
odd n = n % 2 == 1

abbrev pub of_nat : ℕ → Byte
of_nat n = record {
  b7 = odd (n / 128);
  b6 = odd (n / 64);
  b5 = odd (n / 32);
  b4 = odd (n / 16);
  b3 = odd (n / 8);
  b2 = odd (n / 4);
  b1 = odd (n / 2);
  b0 = odd n;
}

-- `x & mask`
infixl 40 ◌&&&◌
abbrev pub ◌&&&◌ : Byte → ℕ → Byte
x &&& mask =
    let m = of_nat mask in
    record {
      b7 = m.b7 && x.b7;
      b6 = m.b6 && x.b6;
      b5 = m.b5 && x.b5;
      b4 = m.b4 && x.b4;
      b3 = m.b3 && x.b3;
      b2 = m.b2 && x.b2;
      b1 = m.b1 && x.b1;
      b0 = m.b0 && x.b0;
    }

-- `x | y`
infixl 30 ◌|||◌
abbrev pub ◌|||◌ : Byte → Byte → Byte
x ||| y = record {
  b7 = x.b7 || y.b7;
  b6 = x.b6 || y.b6;
  b5 = x.b5 || y.b5;
  b4 = x.b4 || y.b4;
  b3 = x.b3 || y.b3;
  b2 = x.b2 || y.b2;
  b1 = x.b1 || y.b1;
  b0 = x.b0 || y.b0;
}

infixl 50 ◌<<◌ ◌>>◌
abbrev pub ◌<<◌ : Byte → ℕ → Byte
x << zero = x
x << suc n =
    record {
      b7 = x.b6;
      b6 = x.b5;
      b5 = x.b4;
      b4 = x.b3;
      b3 = x.b2;
      b2 = x.b1;
      b1 = x.b0;
      b0 = false;
    }
    << n

abbrev pub ◌>>◌ : Byte → ℕ → Byte
x >> zero = x
x >> suc n =
    record {
      b7 = false;
      b6 = x.b7;
      b5 = x.b6;
      b4 = x.b5;
      b3 = x.b4;
      b2 = x.b3;
      b1 = x.b2;
      b0 = x.b1;
    }
    >> n

-- The values of five bits each that five bytes have.
unfoldable pub bits_of_chunk : Byte → Byte → Byte → Byte → Byte → List Byte
bits_of_chunk x0 x1 x2 x3 x4 =
    ((x0 &&& 248) >> 3)
    ∷ (((x0 &&& 7) << 2) ||| ((x1 &&& 192) >> 6))
    ∷ ((x1 &&& 62) >> 1)
    ∷ (((x1 &&& 1) << 4) ||| ((x2 &&& 240) >> 4))
    ∷ (((x2 &&& 15) << 1) ||| ((x3 &&& 128) >> 7))
    ∷ ((x3 &&& 124) >> 2)
    ∷ (((x3 &&& 3) << 3) ||| ((x4 &&& 224) >> 5))
    ∷ (x4 &&& 31)
    ∷ []

abbrev pub base32_table : Str
base32_table = str "ABCDEFGHIJKLMNOPQRSTUVWXYZ234567"

-- `BASE32_TABLE[bit]`; no value of five bits is out of range.
unfoldable pub table_char : Byte → ℕ
table_char x = elim (get_elem? base32_table (to_nat x)) [ none ↦ 0 | some c ↦ c ]

unfoldable pub base32_to_char : ℕ → Byte
base32_to_char c = of_nat (
    if leb b'A' c && leb c b'Z'
    then c - b'A'
    else if leb b'2' c && leb c b'7'
    then c - b'2' + 26
    else 0)

-- All characters, as if there were room for them.
unfoldable pub encode_chunks : List Byte → Str
unfolding bits_of_chunk table_char
encode_chunks (x0 ∷ x1 ∷ x2 ∷ x3 ∷ x4 ∷ rest) =
    map table_char (bits_of_chunk x0 x1 x2 x3 x4) ++ encode_chunks rest
encode_chunks _ = []

-- What is written to a buffer of `olen` characters, at least one: when it is full and there is more to
-- write, its last is overwritten by a zero.
unfoldable pub base32_encode : List Byte → ℕ → Str
unfolding encode_chunks
base32_encode pin olen =
    let chars = encode_chunks pin in
    if ltb olen (length chars) then take (olen - 1) chars ++ 0 ∷ [] else chars

unfoldable pub bytes_of_chunk : Byte → Byte → Byte → Byte → Byte → Byte → Byte → Byte → List Byte
bytes_of_chunk y0 y1 y2 y3 y4 y5 y6 y7 =
    ((y0 << 3) ||| (y1 >> 2))
    ∷ ((y1 << 6) ||| (y2 << 1) ||| (y3 >> 4))
    ∷ ((y3 << 4) ||| (y4 >> 1))
    ∷ ((y4 << 7) ||| (y5 << 2) ||| (y6 >> 3))
    ∷ ((y6 << 5) ||| y7)
    ∷ []

-- The bytes that are written, before the zero that ends them; there is no test for room.
unfoldable pub base32_decode : Str → List Byte
unfolding bytes_of_chunk base32_to_char
base32_decode (c0 ∷ c1 ∷ c2 ∷ c3 ∷ c4 ∷ c5 ∷ c6 ∷ c7 ∷ rest) =
    bytes_of_chunk (base32_to_char c0) (base32_to_char c1) (base32_to_char c2) (base32_to_char c3)
      (base32_to_char c4) (base32_to_char c5) (base32_to_char c6) (base32_to_char c7)
    ++ base32_decode rest
base32_decode _ = []
