-- ===== src/Totp.antt =====
-- The time-based codes of src/crypto/CryptoContext.cpp. libsodium's HMAC is a parameter. A text in a
-- FixedString is its characters, with zeros behind them; the time is in seconds.
pub mod Rfc
mod Tests
use teilpunkt.Base.{
  ℕ, zero, suc, ◌+◌, ◌*◌, ◌/◌, ◌%◌, ◌==◌, Bool, Option, none, some, List, [], ◌∷◌, ◌++◌, Str,
  eq_str, take, length, get_elem?,
}
use teilpunkt.Base32.{Byte, to_nat, of_nat, ◌&&&◌, base32_encode, base32_decode}

-- `crypto_auth_hmacsha512` of a key and a message
abbrev pub Hmac : Type 0
Hmac = List Byte → List Byte → List Byte

abbrev pub replicate : {A : Type 0} → ℕ → A → List A
replicate zero x = []
replicate (suc n) x = x ∷ replicate n x

-- The first so many characters or bytes of a buffer that was zeroed
abbrev pub first_of : {A : Type 0} → A → ℕ → List A → List A
first_of zeroed n xs = take n (xs ++ replicate n zeroed)

-- The big-endian bytes of `timeNum`
unfoldable pub time_bytes : ℕ → ℕ → List Byte
time_bytes zero time_num = []
time_bytes (suc n) time_num = time_bytes n (time_num / 256) ++ of_nat (time_num % 256) ∷ []

abbrev pub byte_at : List Byte → ℕ → Byte
byte_at bytes i = elim (get_elem? bytes i) [ none ↦ of_nat 0 | some b ↦ b ]

-- Shifted, the four bytes have no bit in common: `|` is a sum.
unfoldable pub code_num : List Byte → ℕ
code_num hmac =
    let offset = to_nat (byte_at hmac 63 &&& 15) in
    (to_nat (byte_at hmac offset &&& 127) * 16777216
      + to_nat (byte_at hmac (offset + 1) &&& 255) * 65536
      + to_nat (byte_at hmac (offset + 2) &&& 255) * 256
      + to_nat (byte_at hmac (offset + 3) &&& 255))
    % 1000000

-- The decimal digits, zeros in front: `%06` for a number of at most six digits.
unfoldable pub digits : ℕ → ℕ → Str
digits zero n = []
digits (suc k) n = digits k (n / 10) ++ (b'0' + n % 10) ∷ []

-- `crypto_auth_hmacsha512` reads 32 bytes of the key's buffer.
unfoldable pub get_totp_code : Hmac → ℕ → Str → Str
get_totp_code hmac time key =
    digits 6
      (code_num (hmac (first_of (of_nat 0) 32 (base32_decode key)) (time_bytes 8 (time / 30))))

-- The argument is the 32 bytes that were drawn.
unfoldable pub generate_totp_key : List Byte → Str
generate_totp_key drawn = base32_encode drawn 64

-- `sodium_memcmp` of six characters
unfoldable pub verify_totp : Hmac → ℕ → Str → Str → Bool
unfolding eq_str
verify_totp hmac time key user_code =
    eq_str (first_of 0 6 (get_totp_code hmac time key)) (first_of 0 6 user_code)
