-- ===== src/Totp/Tests.antt =====
-- The codes of src/crypto/CryptoContext.cpp for a made-up function in place of the HMAC.
use teilpunkt.Base.{
  ℕ, zero, suc, ◌+◌, ◌*◌, ◌%◌, ◌≡◌, ◌↔◌, refl, true, List, [], ◌∷◌, ◌++◌, str, arith, take, ap,
}
use teilpunkt.Base32.{
  Byte, to_nat, of_nat, base32_encode, base32_decode, encode_chunks, bits_of_chunk, bytes_of_chunk,
  table_char, base32_to_char,
}
use teilpunkt.Totp.{
  Hmac, replicate, first_of, time_bytes, code_num, digits, get_totp_code, generate_totp_key,
  verify_totp,
}
use teilpunkt.Totp.Rfc.{PadsKeys, rfc_6238, verify_totp_iff}

-- A sum of the bytes of the message and of the key, which zeros do not change, in every byte
abbrev byte_sum : List Byte → ℕ
byte_sum [] = 0
byte_sum (b ∷ bytes) = to_nat b + byte_sum bytes

abbrev toy_hmac : Hmac
toy_hmac key message = replicate 64 (of_nat ((byte_sum key * 7 + byte_sum message) % 256))

abbrev drawn : List Byte
drawn = replicate 32 (of_nat 5)

byte_sum-zeros : (key : List Byte) (n : ℕ) → byte_sum (key ++ replicate n (of_nat 0)) ≡ byte_sum key
byte_sum-zeros [] zero = refl
byte_sum-zeros [] (suc n) = omega (arith, byte_sum-zeros [] n)
byte_sum-zeros (b ∷ key) n = omega (arith, byte_sum-zeros key n)

toy_hmac-PadsKeys : PadsKeys toy_hmac
toy_hmac-PadsKeys key message n h =
    ap (λ s. replicate 64 (of_nat ((s * 7 + byte_sum message) % 256))) (byte_sum-zeros key n)

code_at : get_totp_code toy_hmac 59 (generate_totp_key drawn) ≡ str "761243"
unfolding get_totp_code code_num digits time_bytes generate_totp_key base32_encode base32_decode
    encode_chunks bits_of_chunk bytes_of_chunk table_char base32_to_char
code_at = refl

accepted : verify_totp toy_hmac 45 (generate_totp_key drawn) (str "761243") ≡ true
accepted = (verify_totp_iff toy_hmac 45 drawn (str "761243") toy_hmac-PadsKeys refl).1 refl

verify_totp_iff_example :
    (verify_totp toy_hmac 59 (generate_totp_key drawn) (str "761243") ≡ true)
    ↔ (first_of 0 6 (str "761243") ≡ rfc_6238 toy_hmac (take 30 drawn) 59)
verify_totp_iff_example = verify_totp_iff toy_hmac 59 drawn (str "761243") toy_hmac-PadsKeys refl
