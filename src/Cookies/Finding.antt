-- ===== src/Cookies/Finding.antt =====
-- What the test of redirectDashBoardLoggedIn finds in `document.cookie`.
use teilpunkt.Base.{
  ℕ, ◌≡◌, ◌≢◌, refl, ap, ap₂, ◌∙◌, List, [], ◌∷◌, ◌++◌, Str, str, Bool, false, ◌||◌, trim,
  strip_end, strip_start, is_space, eq_str, All, All-append, All-imp, arith,
}
use teilpunkt.Cookies.{user_id_cookie, split, starts_with, some_starts_with, is_logged_in}

pub record Cookie : Type 0 where
  pub name : Str
  pub value : Str

-- A name and a value as browsers keep them.
pub record IsCookie (c : Cookie) : Type 0 where
  pub name : All (λ u. (u ≢ b';') × (u ≢ b'=') × (is_space u ≡ false)) c.name
  pub value : All (λ u. u ≢ b';') c.value

abbrev pub entry : Cookie → Str
entry c = c.name ++ b'=' ∷ c.value

-- `document.cookie`
unfoldable pub cookie_string : List Cookie → Str
cookie_string [] = []
cookie_string (c ∷ []) = entry c
cookie_string (c ∷ d ∷ cs) = entry c ++ b';' ∷ b' ' ∷ cookie_string (d ∷ cs)

abbrev pub has_name : Str → List Cookie → Bool
has_name n [] = false
has_name n (c ∷ cs) = eq_str c.name n || has_name n cs

split_of_plain : (k : ℕ) (s : Str) → All (λ u. u ≢ k) s → split k s ≡ s ∷ []
unfolding split
split_of_plain k [] h = refl
split_of_plain k (c ∷ s) (p, h) = ground (arith, split_of_plain k s h)

split-append :
    (k : ℕ) (s rest : Str) → All (λ u. u ≢ k) s → split k (s ++ k ∷ rest) ≡ s ∷ split k rest
unfolding split
split-append k [] rest h = ground arith
split-append k (c ∷ s) rest (p, h) = ground (arith, split-append k s rest h)

-- White space at the end is no part of a prefix without any.
starts_with-strip_end :
    (p s : Str)
    → All (λ u. is_space u ≡ false) p
    → starts_with p (strip_end is_space s) ≡ starts_with p s
unfolding starts_with strip_end
starts_with-strip_end [] s h = refl
starts_with-strip_end (q ∷ ps) [] h = refl
starts_with-strip_end (q ∷ ps) (c ∷ s) (plain, h) = ground (arith, starts_with-strip_end ps s h)

starts_with-entry :
    (p n v : Str)
    → All (λ u. u ≢ b'=') p
    → All (λ u. u ≢ b'=') n
    → starts_with (p ++ b'=' ∷ []) (n ++ b'=' ∷ v) ≡ eq_str n p
unfolding starts_with eq_str
starts_with-entry [] [] v h k = refl
starts_with-entry [] (c ∷ n) v h (q, k) = ground arith
starts_with-entry (c ∷ p) [] v (q, h) k = ground arith
starts_with-entry (c ∷ p) (d ∷ n) v (q, h) (r, k) = ground (arith, starts_with-entry p n v h k)

strip_start-entry :
    (n v : Str)
    → All (λ u. (u ≢ b';') × (u ≢ b'=') × (is_space u ≡ false)) n
    → strip_start is_space (n ++ b'=' ∷ v) ≡ n ++ b'=' ∷ v
unfolding trim
strip_start-entry [] v h = refl
strip_start-entry (c ∷ n) v ((_, _, plain), h) = rw plain

abbrev prefix : Str
prefix = user_id_cookie ++ str "="

prefix_plain : All (λ u. is_space u ≡ false) prefix
unfolding trim
prefix_plain = ground arith

entry_plain : (c : Cookie) → IsCookie c → All (λ u. u ≢ b';') (entry c)
entry_plain c h =
    All-append (λ u. u ≢ b';') c.name _ (All-imp _ _ c.name (λ u p. p.0) h.name)
      (omega arith, h.value)

-- A cookie starts with the prefix exactly if it has the name, also behind a space.
starts_with-trim :
    (c : Cookie) → IsCookie c → starts_with prefix (trim (entry c)) ≡ eq_str c.name user_id_cookie
starts_with-trim c h =
    unfold trim in
    rw (strip_start-entry c.name c.value h.name) (
      starts_with-strip_end prefix (entry c) prefix_plain
      ∙ starts_with-entry user_id_cookie c.name c.value (omega arith)
          (All-imp _ _ c.name (λ u p. p.1) h.name))

starts_with-trim_space :
    (c : Cookie)
    → IsCookie c
    → starts_with prefix (trim (b' ' ∷ entry c)) ≡ eq_str c.name user_id_cookie
starts_with-trim_space c h = unfold trim in starts_with-trim c h

-- The cookies behind the first.
some_starts_with-split :
    (c : Cookie) (cs : List Cookie)
    → IsCookie c
    → All IsCookie cs
    → some_starts_with prefix (split b';' (b' ' ∷ cookie_string (c ∷ cs)))
      ≡ has_name user_id_cookie (c ∷ cs)
unfolding some_starts_with cookie_string
some_starts_with-split c [] h hs =
    rw (split_of_plain b';' (b' ' ∷ entry c) (omega arith, entry_plain c h))
      (ap (◌|| false) (starts_with-trim_space c h))
some_starts_with-split c (d ∷ cs) h (k, hs) =
    rw
      (split-append b';' (b' ' ∷ entry c) (b' ' ∷ cookie_string (d ∷ cs))
        (omega arith, entry_plain c h))
      (ap₂ ◌||◌ (starts_with-trim_space c h) (some_starts_with-split d cs k hs))

-- The test finds the cookie of the session exactly if one of the browser's cookies has its name,
-- whatever stands before it and in the values.
pub is_logged_in-cookie_string :
    (cookies : List Cookie)
    → All IsCookie cookies
    → is_logged_in (cookie_string cookies) ≡ has_name user_id_cookie cookies
unfolding is_logged_in cookie_string
is_logged_in-cookie_string [] h = unfold trim in refl
is_logged_in-cookie_string (c ∷ []) (h, hs) =
    rw (split_of_plain b';' (entry c) (entry_plain c h)) (ap (◌|| false) (starts_with-trim c h))
is_logged_in-cookie_string (c ∷ d ∷ cs) (h, (k, hs)) =
    rw (split-append b';' (entry c) (b' ' ∷ cookie_string (d ∷ cs)) (entry_plain c h))
      (ap₂ ◌||◌ (starts_with-trim c h) (some_starts_with-split d cs k hs))
