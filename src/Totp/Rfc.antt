-- ===== src/Totp/Rfc.antt =====
-- The codes of src/crypto/CryptoContext.cpp and the ones of RFC 6238, which authenticator
-- applications show.
use teilpunkt.Base.{
  ℕ, zero, suc, ◌+◌, ◌*◌, ◌/◌, ◌%◌, ◌≤◌, ◌<◌, ◌≡◌, ◌↔◌, refl, ap, sym, ◌∙◌, Bool, true, false, List,
  [], ◌∷◌, ◌++◌, Str, eq_str_iff, take, length, length-append, length-take, append-nil, arith,
}
use teilpunkt.Base32.{Byte, to_nat, of_nat, bit, ◌&&&◌, base32_decode}
use teilpunkt.Base32.Roundtrip.{base32_decode-base32_encode}
use teilpunkt.Totp.{
  Hmac, replicate, first_of, time_bytes, byte_at, code_num, digits, get_totp_code,
  generate_totp_key, verify_totp,
}

-- The number that bytes stand for, the highest first.
abbrev be_value : ℕ → List Byte → ℕ
be_value acc [] = acc
be_value acc (b ∷ bytes) = be_value (acc * 256 + to_nat b) bytes

-- RFC 4226, section 5.3: the four bytes from the offset, which the low four bits of the last byte
-- are, without the highest bit.
abbrev pub dynamic_truncation : List Byte → ℕ
dynamic_truncation hmac =
    let offset = to_nat (byte_at hmac 63) % 16 in
    be_value 0 (
      byte_at hmac offset
      ∷ byte_at hmac (offset + 1)
      ∷ byte_at hmac (offset + 2)
      ∷ byte_at hmac (offset + 3)
      ∷ [])
    % 2147483648

-- RFC 4226, section 5.1: the counter is a value of eight bytes, the highest first.
abbrev pub moving_factor : ℕ → List Byte
moving_factor n =
    of_nat (n / 72057594037927936 % 256)
    ∷ of_nat (n / 281474976710656 % 256)
    ∷ of_nat (n / 1099511627776 % 256)
    ∷ of_nat (n / 4294967296 % 256)
    ∷ of_nat (n / 16777216 % 256)
    ∷ of_nat (n / 65536 % 256)
    ∷ of_nat (n / 256 % 256)
    ∷ of_nat (n % 256)
    ∷ []

-- The six digits of the decimal number, with the code unit of `0` as the lowest.
abbrev pub six_digits : ℕ → Str
six_digits n =
    (48 + n / 100000 % 10)
    ∷ (48 + n / 10000 % 10)
    ∷ (48 + n / 1000 % 10)
    ∷ (48 + n / 100 % 10)
    ∷ (48 + n / 10 % 10)
    ∷ (48 + n % 10)
    ∷ []

-- RFC 6238 with HMAC-SHA-512, six digits and a step of 30 seconds.
abbrev pub rfc_6238 : Hmac → List Byte → ℕ → Str
rfc_6238 hmac key time =
    six_digits (dynamic_truncation (hmac key (moving_factor (time / 30))) % 1000000)

time_bytes-eq-moving_factor : (n : ℕ) → time_bytes 8 n ≡ moving_factor n
unfolding time_bytes
time_bytes-eq-moving_factor n =
    let e2 : n / 256 / 256 ≡ n / 65536 = omega arith in
    let e3 : n / 65536 / 256 ≡ n / 16777216 = omega arith in
    let e4 : n / 16777216 / 256 ≡ n / 4294967296 = omega arith in
    let e5 : n / 4294967296 / 256 ≡ n / 1099511627776 = omega arith in
    let e6 : n / 1099511627776 / 256 ≡ n / 281474976710656 = omega arith in
    let e7 : n / 281474976710656 / 256 ≡ n / 72057594037927936 = omega arith in
    rw (e2, e3, e4, e5, e6, e7) refl

digits-eq-six_digits : (n : ℕ) → digits 6 n ≡ six_digits n
unfolding digits
digits-eq-six_digits n =
    let e2 : n / 10 / 10 ≡ n / 100 = omega arith in
    let e3 : n / 100 / 10 ≡ n / 1000 = omega arith in
    let e4 : n / 1000 / 10 ≡ n / 10000 = omega arith in
    let e5 : n / 10000 / 10 ≡ n / 100000 = omega arith in rw (e2, e3, e4, e5) refl

-- RFC 2104: a key that is shorter than a block of 128 bytes has zeros appended.
abbrev pub PadsKeys : Hmac → Type 0
PadsKeys hmac =
    (key message : List Byte) (n : ℕ)
    → length key + n ≤ 128
    → hmac (key ++ replicate n (of_nat 0)) message ≡ hmac key message

bit-le : (b : Bool) → bit b ≤ 1
bit-le true = omega arith
bit-le false = omega arith

module _ (x : Byte) where
  low_four : to_nat (x &&& 15) ≡ to_nat x % 16
  low_four = omega (arith, bit-le)

  low_seven : to_nat (x &&& 127) ≡ to_nat x % 128
  low_seven = omega (arith, bit-le)

  all_eight : to_nat (x &&& 255) ≡ to_nat x
  all_eight = omega arith

  to_nat-lt : to_nat x < 256
  to_nat-lt = omega (arith, bit-le)

code_num_lem : (hmac : List Byte) → code_num hmac ≡ dynamic_truncation hmac % 1000000
unfolding code_num
code_num_lem hmac =
    let last = byte_at hmac 63 in
    let offset = to_nat last % 16 in
    let x0 = byte_at hmac offset in
    let x1 = byte_at hmac (offset + 1) in
    let x2 = byte_at hmac (offset + 2) in
    let x3 = byte_at hmac (offset + 3) in
    rw (low_four last) (
      omega (
        arith,
        low_seven x0,
        all_eight x1,
        all_eight x2,
        all_eight x3,
        to_nat-lt x0,
        to_nat-lt x1,
        to_nat-lt x2,
        to_nat-lt x3,
      ))

take-append {ℓ} :
    {A : Type ℓ} (xs ys : List A) (n : ℕ) → take (length xs + n) (xs ++ ys) ≡ xs ++ take n ys
take-append [] ys n = ap (λ m. take m ys) (omega arith)
take-append (x ∷ xs) ys n =
    let e : suc (length xs) + n ≡ suc (length xs + n) = omega arith in
    ap (λ m. take m (x ∷ (xs ++ ys))) e ∙ ap (x ∷◌) (take-append xs ys n)

length-digits : (k n : ℕ) → length (digits k n) ≡ k
unfolding digits
length-digits zero n = refl
length-digits (suc k) n =
    omega
      (arith, length-append (digits k (n / 10)) ((b'0' + n % 10) ∷ []), length-digits k (n / 10))

-- The server decodes the first 30 of the 32 bytes that were drawn, and pads them with zeros.
decoded_key :
    (drawn : List Byte)
    → length drawn ≡ 32
    → first_of (of_nat 0) 32 (base32_decode (generate_totp_key drawn))
      ≡ take 30 drawn ++ replicate 2 (of_nat 0)
unfolding generate_totp_key
decoded_key drawn h =
    let decoded = base32_decode-base32_encode drawn 64 (omega arith) in
    let whole : length drawn / 5 * 5 ≡ 30 = omega arith in
    let thirty : length (take 30 drawn) ≡ 30 = omega (arith, length-take 30 drawn) in
    let split : 32 ≡ length (take 30 drawn) + 2 = omega (arith, thirty) in
    ap (first_of (of_nat 0) 32) (decoded ∙ ap (λ n. take n drawn) whole)
    ∙ ap (λ n. take n (take 30 drawn ++ replicate 32 (of_nat 0))) split
    ∙ take-append (take 30 drawn) (replicate 32 (of_nat 0)) 2

first_of_digits : (n : ℕ) → first_of 0 6 (digits 6 n) ≡ digits 6 n
first_of_digits n =
    let split : 6 ≡ length (digits 6 n) + 0 = omega (arith, length-digits 6 n) in
    ap (λ m. take m (digits 6 n ++ replicate 6 0)) split
    ∙ take-append (digits 6 n) (replicate 6 0) 0
    ∙ append-nil (digits 6 n)

first_of_code :
    (hmac : Hmac) (time : ℕ) (drawn : List Byte)
    → PadsKeys hmac
    → length drawn ≡ 32
    → first_of 0 6 (get_totp_code hmac time (generate_totp_key drawn))
      ≡ rfc_6238 hmac (take 30 drawn) time
unfolding get_totp_code
first_of_code hmac time drawn pads h =
    let message = time_bytes 8 (time / 30) in
    let thirty : length (take 30 drawn) ≡ 30 = omega (arith, length-take 30 drawn) in
    first_of_digits _
    ∙ ap (digits 6) (
        code_num_lem _
        ∙ ap (λ key. dynamic_truncation (hmac key message) % 1000000) (decoded_key drawn h)
        ∙ ap (λ mac. dynamic_truncation mac % 1000000)
            (pads (take 30 drawn) message 2 (omega (arith, thirty))))
    ∙ digits-eq-six_digits (dynamic_truncation (hmac (take 30 drawn) message) % 1000000)
    ∙ ap (λ m. six_digits (dynamic_truncation (hmac (take 30 drawn) m) % 1000000))
        (time_bytes-eq-moving_factor (time / 30))

-- For a key that the server has made of 32 random bytes, it accepts a code, at a time, exactly if
-- the code's first six characters are what RFC 6238 has for the first 30 of the bytes at that time.
pub verify_totp_iff :
    (hmac : Hmac) (time : ℕ) (drawn : List Byte) (user_code : Str)
    → PadsKeys hmac
    → length drawn ≡ 32
    → (verify_totp hmac time (generate_totp_key drawn) user_code ≡ true)
      ↔ (first_of 0 6 user_code ≡ rfc_6238 hmac (take 30 drawn) time)
unfolding verify_totp
verify_totp_iff hmac time drawn user_code pads h =
    let (sound, full) =
      eq_str_iff (first_of 0 6 (get_totp_code hmac time (generate_totp_key drawn)))
        (first_of 0 6 user_code) in
    let code = first_of_code hmac time drawn pads h in
    (λ e. sym (sound e) ∙ code, λ e. full (code ∙ sym e))
