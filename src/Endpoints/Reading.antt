-- ===== src/Endpoints/Reading.antt =====
-- One round of the loop of GetCookie in src/server/Endpoints.cpp, at the start of a cookie.
use teilpunkt.Base.{
  ℕ, suc, ◌+◌, ◌-◌, ◌<◌, ◌≡◌, ◌≢◌, refl, sym, ap, ◌∙◌, Str, eq_str, true, false, ◌⊎◌, eq_str_iff,
  Bool-cases, none, some, [], ◌∷◌, ◌++◌, append_assoc, append-nil, length, length-append, take, All,
  inl, inr, arith,
}
use teilpunkt.Endpoints.{npos, drop, index_of, find, substr, read_cookie, round, returns, goes_on}

drop-append : (xs ys : Str) → drop (length xs) (xs ++ ys) ≡ ys
drop-append [] ys = refl
drop-append (x ∷ xs) ys = drop-append xs ys

take-append : (xs ys : Str) → take (length xs) (xs ++ ys) ≡ xs
take-append [] [] = refl
take-append [] (y ∷ ys) = refl
take-append (x ∷ xs) ys = ap (x ∷◌) (take-append xs ys)

index_of-append :
    (c : ℕ) (s rest : Str) → All (λ u. u ≢ c) s → index_of c (s ++ c ∷ rest) ≡ some (length s)
unfolding index_of
index_of-append c [] rest h = ground arith
index_of-append c (d ∷ s) rest (p, h) = ground (arith, index_of-append c s rest h)

index_of_plain : (c : ℕ) (s : Str) → All (λ u. u ≢ c) s → index_of c s ≡ none
unfolding index_of
index_of_plain c [] h = refl
index_of_plain c (d ∷ s) (p, h) = ground (arith, index_of_plain c s h)

module _ {full : Str} (before : Str) {pos : ℕ} (at : pos ≡ length before) where
  find_at :
      (c : ℕ) (s rest : Str)
      → full ≡ before ++ (s ++ c ∷ rest)
      → All (λ u. u ≢ c) s
      → find c full pos ≡ pos + length s
  unfolding find
  find_at c s rest here h =
      rw (here, at, drop-append before (s ++ c ∷ rest), index_of-append c s rest h, find)
        (omega arith)

  find_plain : (c : ℕ) (s : Str) → full ≡ before ++ s → All (λ u. u ≢ c) s → find c full pos ≡ npos
  unfolding find
  find_plain c s here h = rw (here, at, drop-append before s, index_of_plain c s h, find) refl

  substr_at :
      (s rest : Str) {n : ℕ} → full ≡ before ++ (s ++ rest) → n ≡ length s → substr full pos n ≡ s
  substr_at s rest here e = rw (here, at, e, drop-append before (s ++ rest)) (take-append s rest)

-- At the start of a cookie whose name holds no `=` and whose value no `;`.
module _ {full : Str} (before k v tail name : Str)
    (here : full ≡ before ++ (k ++ b'=' ∷ (v ++ tail))) (plain_name : All (λ u. u ≢ b'=') k)
    (plain_value : All (λ u. u ≢ b';') v) (fits : length full < npos) where
  length-full : length full ≡ length before + (length k + suc (length v + length tail))
  length-full = rw here (
      omega (
        arith,
        length-append before (k ++ b'=' ∷ (v ++ tail)),
        length-append k (b'=' ∷ (v ++ tail)),
        length-append v tail,
      ))

  round-eq-read_cookie :
      round full name (length before)
      ≡ read_cookie full name (length before) (length before + length k)
  unfolding round
  round-eq-read_cookie =
      ground (arith, length-full, find_at before refl b'=' k (v ++ tail) here plain_name)

  name_read : substr full (length before) (length before + length k - length before) ≡ k
  name_read = substr_at before refl k (b'=' ∷ (v ++ tail)) here (omega arith)

  -- The text as what stands before the value, and the rest.
  from_value : full ≡ (before ++ (k ++ b'=' ∷ [])) ++ (v ++ tail)
  from_value =
      here
      ∙ ap (before ++◌) (sym (append_assoc k (b'=' ∷ []) (v ++ tail)))
      ∙ sym (append_assoc before (k ++ b'=' ∷ []) (v ++ tail))

  value_start : length before + length k + 1 ≡ length (before ++ (k ++ b'=' ∷ []))
  value_start = omega (arith, length-append before (k ++ b'=' ∷ []), length-append k (b'=' ∷ []))

  abbrev head : Str
  head = before ++ (k ++ b'=' ∷ [])

  semicolon_last : tail ≡ [] → find b';' full (length before + length k + 1) ≡ npos
  semicolon_last last =
      find_plain head value_start b';' v
        (from_value ∙ ap (head ++◌) (ap (v ++◌) last ∙ append-nil v)) plain_value

  semicolon_next :
      (more : Str)
      → tail ≡ b';' ∷ more
      → find b';' full (length before + length k + 1) ≡ length before + length k + 1 + length v
  semicolon_next more ends =
      find_at head value_start b';' v more (from_value ∙ ap (λ r. head ++ (v ++ r)) ends)
        plain_value

  -- The cookie that is looked for is returned, whatever follows it.
  pub round_hit :
      (tail ≡ []) ⊎ ((more : Str) × (tail ≡ b';' ∷ more))
      → k ≡ name
      → round full name (length before) ≡ returns v
  unfolding read_cookie
  round_hit ends same =
      let same_text : eq_str k name ≡ true = (eq_str_iff k name).1 same in
      let at_value : substr full (length before + length k + 1) (length v) ≡ v =
        substr_at head value_start v tail from_value refl in
      round-eq-read_cookie ∙ elim ends [
        | inl last ↦
            ground (arith, name_read, same_text, at_value, length-full, semicolon_last last)
        | inr (more, ends) ↦
            ground (arith, name_read, same_text, at_value, length-full, semicolon_next more ends)
      ]

  -- Any other cookie is passed over, and the search goes on behind the next `; `. Behind the last
  -- cookie there is none: `npos + 2` is 1.
  module _ (other : k ≢ name) where
    other_text : eq_str k name ≡ false
    other_text = elim (Bool-cases (eq_str k name)) [
      | inl same ↦ absurd (other ((eq_str_iff k name).0 same))
      | inr differs ↦ differs
    ]

    from_name_end : full ≡ (before ++ k) ++ (b'=' ∷ (v ++ tail))
    from_name_end = here ∙ sym (append_assoc before k (b'=' ∷ (v ++ tail)))

    plain_rest : All (λ u. u ≢ b';') (b'=' ∷ v)
    plain_rest = (omega arith, plain_value)

    pub round_miss_last : tail ≡ [] → round full name (length before) ≡ goes_on 1
    unfolding read_cookie
    round_miss_last last =
        round-eq-read_cookie
        ∙ ground (
          arith,
          name_read,
          other_text,
          find_plain (before ++ k) (sym (length-append before k)) b';' (b'=' ∷ v)
              (from_name_end ∙ ap (λ r. (before ++ k) ++ b'=' ∷ r) (ap (v ++◌) last ∙ append-nil v))
              plain_rest,
        )

    pub round_miss :
        (more : Str)
        → tail ≡ b';' ∷ b' ' ∷ more
        → round full name (length before) ≡ goes_on (length before + (length k + (length v + 3)))
    unfolding read_cookie
    round_miss more ends =
        round-eq-read_cookie
        ∙ ground (
          arith,
          name_read,
          other_text,
          length-full,
          ap length ends,
          find_at (before ++ k) (sym (length-append before k)) b';' (b'=' ∷ v) (b' ' ∷ more)
              (from_name_end ∙ ap (λ r. (before ++ k) ++ b'=' ∷ (v ++ r)) ends) plain_rest,
        )
