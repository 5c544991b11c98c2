-- ===== src/Crypto.antt =====
-- frontend/js/crypto.js. The functions of libsodium that it calls are a parameter.
pub mod Tests
use teilpunkt.Base.{ℕ, ◌+◌, ◌*◌, ◌/◌, ◌≡◌, List, Str, length, ◌∙◌, ap}

-- What the script uses of `window.sodium`: bytes are numbers.
pub record Sodium : Type 0 where
  pub from_string : Str → List ℕ
  pub crypto_generichash : ℕ → List ℕ → List ℕ
  pub to_base64 : List ℕ → Str

-- The documented lengths: a hash has the length that is asked for, and the default variant of
-- base64 (URL safe, no padding) writes four characters for three bytes.
pub record HasDocumentedLengths (sodium : Sodium) : Type 0 where
  pub length-hash : (n : ℕ) (bytes : List ℕ) → length (sodium.crypto_generichash n bytes) ≡ n
  pub length-base64 :
      (bytes : List ℕ) → length (sodium.to_base64 bytes) ≡ (4 * length bytes + 2) / 3

abbrev pub hash_length : ℕ
hash_length = 24

-- `hashPassword`, after `sodium.ready`
unfoldable pub hash_password : Sodium → Str → Str
hash_password sodium plain =
    sodium.to_base64 (sodium.crypto_generichash hash_length (sodium.from_string plain))

-- Whatever the password, what is sent in its place has 32 characters, given libsodium's documented
-- lengths.
length-hash_password :
    (sodium : Sodium) (plain : Str)
    → HasDocumentedLengths sodium
    → length (hash_password sodium plain) ≡ 32
unfolding hash_password
length-hash_password sodium plain h =
    h.length-base64 _ ∙ ap (λ n. (4 * n + 2) / 3) (h.length-hash hash_length _)
