-- ===== src/Base32/Tests.antt =====
-- Keys at the texts that encode them.
use teilpunkt.Base.{◌≡◌, refl, map, str, take, [], ◌∷◌, ◌++◌, arith}
use teilpunkt.Base32.{to_nat, of_nat, base32_encode, base32_decode}
use teilpunkt.Base32.Roundtrip.{base32_decode-base32_encode}

base32_decode-base32_encode_example :
    base32_decode (base32_encode (map of_nat (str "teilpunkt!!")) 64)
    ≡ take 10 (map of_nat (str "teilpunkt!!"))
base32_decode-base32_encode_example =
    base32_decode-base32_encode (map of_nat (str "teilpunkt!!")) 64 (omega arith)

base32_tests :
    (base32_encode (map of_nat (str "hello")) 64 ≡ str "NBSWY3DP")
    × (base32_encode (map of_nat (str "hello")) 4 ≡ str "NBS" ++ 0 ∷ [])
    × (map to_nat (base32_decode (str "NBSWY3DP")) ≡ str "hello")
unfolding base32_encode base32_decode
base32_tests = (refl, refl, refl)
