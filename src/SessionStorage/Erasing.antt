-- ===== src/SessionStorage/Erasing.antt =====
-- What SecureList::erase_if, SecureList::eraseIndex and the searches leave and find: they keep no
-- order, but keep every element that is not to be erased.
use mathlib.Core.List.{Memᴰ}
use mathlib.Core.List.Memᴰ
use mathlib.Core.Path.{subst}
use mathlib.Core.Option.{some-injective}
use teilpunkt.Base.{
  ℕ, zero, suc, ◌≤◌, ◌≡◌, refl, sym, ap, ◌∙◌, Bool, true, false, none, some, List, [], ◌∷◌, length,
  get_last?, drop_last, length-drop_last, Option-cases, Bool-cases, inl, inr, arith,
}
use teilpunkt.SessionStorage.{
  Session, erase_first, erase_index, erase_rounds, erase_if, find_session,
}

module _ {A : Type 0} where
  last-exists : (x : A) (xs : List A) → (l : A) × (get_last? (x ∷ xs) ≡ some l)
  last-exists x [] = (x, refl)
  last-exists x (y ∷ xs) = last-exists y xs

  pub mem_of_last :
      (z l : A) (xs : List A) → get_last? xs ≡ some l → Memᴰ z (l ∷ drop_last xs) → Memᴰ z xs
  mem_of_last z l [] e m = cc
  mem_of_last z l (x ∷ []) e (Memᴰ.head h) = Memᴰ.head (cc (h, e))
  mem_of_last z l (x ∷ []) e (Memᴰ.tail m) = elim m [ ]
  mem_of_last z l (x ∷ y ∷ xs) e (Memᴰ.head h) =
      Memᴰ.tail (mem_of_last z l (y ∷ xs) e (Memᴰ.head h))
  mem_of_last z l (x ∷ y ∷ xs) e (Memᴰ.tail (Memᴰ.head h)) = Memᴰ.head h
  mem_of_last z l (x ∷ y ∷ xs) e (Memᴰ.tail (Memᴰ.tail m)) =
      Memᴰ.tail (mem_of_last z l (y ∷ xs) e (Memᴰ.tail m))

  mem_to_last :
      (z l : A) (xs : List A) → get_last? xs ≡ some l → Memᴰ z xs → Memᴰ z (l ∷ drop_last xs)
  mem_to_last z l [] e m = elim m [ ]
  mem_to_last z l (x ∷ []) e (Memᴰ.tail m) = elim m [ ]
  mem_to_last z l (x ∷ []) e (Memᴰ.head h) = Memᴰ.head (cc (h, e))
  mem_to_last z l (x ∷ y ∷ xs) e (Memᴰ.head h) = Memᴰ.tail (Memᴰ.head h)
  mem_to_last z l (x ∷ y ∷ xs) e (Memᴰ.tail m) = elim (mem_to_last z l (y ∷ xs) e m) [
    | Memᴰ.head h ↦ Memᴰ.head h
    | Memᴰ.tail m' ↦ Memᴰ.tail (Memᴰ.tail m')
  ]

  pub erase_first-eq :
      (x : A) (xs : List A)
      → (l : A) × (get_last? (x ∷ xs) ≡ some l) × (erase_first (x ∷ xs) ≡ l ∷ drop_last (x ∷ xs))
  unfolding erase_first
  erase_first-eq x xs = let (l, e) = last-exists x xs in (l, e, rw (e, erase_first) refl)

  length-erase_first : (xs : List A) → length (erase_first xs) ≡ length xs
  length-erase_first [] = unfold erase_first in refl
  length-erase_first (x ∷ xs) =
      let (l, _, e) = erase_first-eq x xs in omega (arith, ap length e, length-drop_last (x ∷ xs))

  pub mem_of_erase_first : (z : A) (xs : List A) → Memᴰ z (erase_first xs) → Memᴰ z xs
  mem_of_erase_first z [] m = unfold erase_first in m
  mem_of_erase_first z (x ∷ xs) m =
      let (l, last, e) = erase_first-eq x xs in mem_of_last z l (x ∷ xs) last (subst (Memᴰ z) e m)

  pub mem_to_erase_first : (z : A) (xs : List A) → Memᴰ z xs → Memᴰ z (erase_first xs)
  mem_to_erase_first z [] m = elim m [ ]
  mem_to_erase_first z (x ∷ xs) m =
      let (l, last, e) = erase_first-eq x xs in
      subst (Memᴰ z) (sym e) (mem_to_last z l (x ∷ xs) last m)

  module _ (p : A → Bool) where
    erase_rounds-true :
        (n : ℕ) (x : A) (xs : List A)
        → p x ≡ true
        → erase_rounds (suc n) p (x ∷ xs) ≡ erase_rounds n p (erase_first xs)
    unfolding erase_rounds
    erase_rounds-true n x xs e = rw (e, erase_rounds) refl

    erase_rounds-false :
        (n : ℕ) (x : A) (xs : List A)
        → p x ≡ false
        → erase_rounds (suc n) p (x ∷ xs) ≡ x ∷ erase_rounds n p xs
    unfolding erase_rounds
    erase_rounds-false n x xs e = rw (e, erase_rounds) refl

    erase_rounds_nil : (n : ℕ) → erase_rounds n p [] ≡ []
    unfolding erase_rounds
    erase_rounds_nil zero = refl
    erase_rounds_nil (suc n) = refl

    erase_if-eq : (xs : List A) → erase_if p xs ≡ erase_rounds (length xs) p xs
    erase_if-eq xs = unfold erase_if in refl

    -- Only what the test does not hold of stays.
    mem_of_erase_rounds :
        (n : ℕ) (xs : List A) (z : A)
        → length xs ≤ n
        → Memᴰ z (erase_rounds n p xs)
        → Memᴰ z xs × (p z ≡ false)
    mem_of_erase_rounds n [] z h m = elim (subst (Memᴰ z) (erase_rounds_nil n) m) [ ]
    mem_of_erase_rounds zero (x ∷ xs) z h m = absurd (omega arith)
    mem_of_erase_rounds (suc n) (x ∷ xs) z h m = elim (Bool-cases (p x)) [
      | inl gone ↦
          let (m', e) =
            mem_of_erase_rounds n (erase_first xs) z (omega (arith, length-erase_first xs))
              (subst (Memᴰ z) (erase_rounds-true n x xs gone) m) in
          (Memᴰ.tail (mem_of_erase_first z xs m'), e)
      | inr kept ↦ elim (subst (Memᴰ z) (erase_rounds-false n x xs kept) m) [
        | Memᴰ.head same ↦ (Memᴰ.head same, ap p same ∙ kept)
        | Memᴰ.tail m' ↦
            let (m'', e) = mem_of_erase_rounds n xs z (omega arith) m' in (Memᴰ.tail m'', e)
      ]
    ]

    mem_to_erase_rounds :
        (n : ℕ) (xs : List A) (z : A)
        → length xs ≤ n
        → Memᴰ z xs
        → p z ≡ false
        → Memᴰ z (erase_rounds n p xs)
    mem_to_erase_rounds n [] z h m e = elim m [ ]
    mem_to_erase_rounds zero (x ∷ xs) z h m e = absurd (omega arith)
    mem_to_erase_rounds (suc n) (x ∷ xs) z h (Memᴰ.head same) e =
        subst (Memᴰ z) (sym (erase_rounds-false n x xs (sym (ap p same) ∙ e))) (Memᴰ.head same)
    mem_to_erase_rounds (suc n) (x ∷ xs) z h (Memᴰ.tail m) e = elim (Bool-cases (p x)) [
      | inl gone ↦ subst (Memᴰ z) (sym (erase_rounds-true n x xs gone)) (
          mem_to_erase_rounds n (erase_first xs) z (omega (arith, length-erase_first xs))
            (mem_to_erase_first z xs m) e)
      | inr kept ↦
          subst (Memᴰ z) (sym (erase_rounds-false n x xs kept))
            (Memᴰ.tail (mem_to_erase_rounds n xs z (omega arith) m e))
    ]

    length-erase_rounds : (n : ℕ) (xs : List A) → length (erase_rounds n p xs) ≤ length xs
    length-erase_rounds zero xs = unfold erase_rounds in omega arith
    length-erase_rounds (suc n) [] = unfold erase_rounds in omega arith
    length-erase_rounds (suc n) (x ∷ xs) = elim (Bool-cases (p x)) [
      | inl gone ↦ omega (
        arith,
        ap length (erase_rounds-true n x xs gone),
        length-erase_first xs,
        length-erase_rounds n (erase_first xs),
      )
      | inr kept ↦
          omega (arith, ap length (erase_rounds-false n x xs kept), length-erase_rounds n xs)
    ]

    pub mem_of_erase_if : (xs : List A) (z : A) → Memᴰ z (erase_if p xs) → Memᴰ z xs × (p z ≡ false)
    mem_of_erase_if xs z m =
        mem_of_erase_rounds (length xs) xs z (omega arith) (subst (Memᴰ z) (erase_if-eq xs) m)

    pub mem_to_erase_if : (xs : List A) (z : A) → Memᴰ z xs → p z ≡ false → Memᴰ z (erase_if p xs)
    mem_to_erase_if xs z m e =
        subst (Memᴰ z) (sym (erase_if-eq xs))
          (mem_to_erase_rounds (length xs) xs z (omega arith) m e)

    pub length-erase_if : (xs : List A) → length (erase_if p xs) ≤ length xs
    length-erase_if xs = unfold erase_if in length-erase_rounds (length xs) xs

  erase_index_nil : (i : ℕ) → erase_index {A = A} i [] ≡ []
  unfolding erase_index
  erase_index_nil zero = refl
  erase_index_nil (suc i) = refl

  erase_index_zero : (x : A) (xs : List A) → erase_index 0 (x ∷ xs) ≡ erase_first xs
  erase_index_zero x xs = unfold erase_index in refl

  erase_index-suc :
      (i : ℕ) (x : A) (xs : List A) → erase_index (suc i) (x ∷ xs) ≡ x ∷ erase_index i xs
  erase_index-suc i x xs = unfold erase_index in refl

  pub mem_of_erase_index : (i : ℕ) (xs : List A) (z : A) → Memᴰ z (erase_index i xs) → Memᴰ z xs
  mem_of_erase_index i [] z m = elim (subst (Memᴰ z) (erase_index_nil i) m) [ ]
  mem_of_erase_index zero (x ∷ xs) z m =
      Memᴰ.tail (mem_of_erase_first z xs (subst (Memᴰ z) (erase_index_zero x xs) m))
  mem_of_erase_index (suc i) (x ∷ xs) z m = elim (subst (Memᴰ z) (erase_index-suc i x xs) m) [
    | Memᴰ.head same ↦ Memᴰ.head same
    | Memᴰ.tail m' ↦ Memᴰ.tail (mem_of_erase_index i xs z m')
  ]

  pub length-erase_index : (i : ℕ) (xs : List A) → length (erase_index i xs) ≤ length xs
  length-erase_index i [] = omega (arith, ap length (erase_index_nil i))
  length-erase_index zero (x ∷ xs) =
      omega (arith, ap length (erase_index_zero x xs), length-erase_first xs)
  length-erase_index (suc i) (x ∷ xs) =
      omega (arith, ap length (erase_index-suc i x xs), length-erase_index i xs)

-- What a search finds is there and passes the test, and a search finds nothing only if nothing does.
module _ (p : Session → Bool) where
  find_session_here :
      (x : Session) (xs : List Session) → p x ≡ true → find_session p (x ∷ xs) ≡ some (0, x)
  unfolding find_session
  find_session_here x xs e = rw (e, find_session) refl

  find_session_there :
      (x : Session) (xs : List Session) {i : ℕ} {s : Session}
      → p x ≡ false
      → find_session p xs ≡ some (i, s)
      → find_session p (x ∷ xs) ≡ some (suc i, s)
  unfolding find_session
  find_session_there x xs e found = rw (e, found, find_session) refl

  find_session_nowhere :
      (x : Session) (xs : List Session)
      → p x ≡ false
      → find_session p xs ≡ none
      → find_session p (x ∷ xs) ≡ none
  unfolding find_session
  find_session_nowhere x xs e missing = rw (e, missing, find_session) refl

  pub find_session-found :
      (xs : List Session) (r : ℕ × Session)
      → find_session p xs ≡ some r
      → Memᴰ r.1 xs × (p r.1 ≡ true)
  find_session-found [] r found = unfold find_session in cc
  find_session-found (x ∷ xs) r found = elim (Bool-cases (p x)) [
    | inl here ↦
        let same : r ≡ (0, x) = some-injective _ _ (sym found ∙ find_session_here x xs here) in
        (Memᴰ.head (ap (λ q. q.1) same), ap (λ q. p q.1) same ∙ here)
    | inr there ↦ elim (Option-cases (find_session p xs)) [
      | inl missing ↦ absurd (cc (found, find_session_nowhere x xs there missing))
      | inr ((i, s), later) ↦
          let same : r ≡ (suc i, s) =
            some-injective _ _ (sym found ∙ find_session_there x xs there later) in
          let (m, e) = find_session-found xs (i, s) later in
          (Memᴰ.tail (Memᴰ.cast (ap (λ q. q.1) same) m), ap (λ q. p q.1) same ∙ e)
    ]
  ]

  pub find_session-none :
      (xs : List Session) (s : Session) → find_session p xs ≡ none → Memᴰ s xs → p s ≡ false
  find_session-none [] s missing m = elim m [ ]
  find_session-none (x ∷ xs) s missing m = elim (Bool-cases (p x)) [
    | inl here ↦ absurd (cc (missing, find_session_here x xs here))
    | inr there ↦ elim (Option-cases (find_session p xs)) [
      | inl none_later ↦ elim m [
        | Memᴰ.head same ↦ ap p same ∙ there
        | Memᴰ.tail m' ↦ find_session-none xs s none_later m'
      ]
      | inr ((i, s'), later) ↦ absurd (cc (missing, find_session_there x xs there later))
    ]
  ]
