-- ===== src/Crypto/Tests.antt =====
-- A stand-in for libsodium with the documented lengths.
use teilpunkt.Base.{ℕ, suc, zero, ◌+◌, ◌*◌, ◌/◌, ◌≡◌, refl, List, [], ◌∷◌, length, ap}
use teilpunkt.Crypto.{Sodium, HasDocumentedLengths}

abbrev zeros : ℕ → List ℕ
zeros zero = []
zeros (suc n) = 0 ∷ zeros n

length-zeros : (n : ℕ) → length (zeros n) ≡ n
length-zeros zero = refl
length-zeros (suc n) = ap suc (length-zeros n)

abbrev pub blank : Sodium
blank = record {
  from_string = λ s. s;
  crypto_generichash = λ n _. zeros n;
  to_base64 = λ bytes. zeros ((4 * length bytes + 2) / 3);
}

blank-HasDocumentedLengths : HasDocumentedLengths blank
blank-HasDocumentedLengths = record {
  length-hash = λ n _. length-zeros n;
  length-base64 = λ bytes. length-zeros ((4 * length bytes + 2) / 3);
}
