-- ===== src/Backend/Laws.antt =====
-- What the functions of frontend/js/backend.js promise to the pages.
use teilpunkt.Base.{
  ℕ, ◌<◌, ◌≡◌, ◌↔◌, inl, inr, true, false, some, List, [], String, Str, str, all-strip, get_elem?,
  all, strip, Bool-cases, arith,
}
use teilpunkt.Backend.Types.{Outcome, fulfilled, rejected, File, Response}
use teilpunkt.Backend.{
  fetch_with_error_handling, is_http_space, is_header_unit, append_header, file_upload_request,
}

-- A response gets through exactly when the server was reached and answered with a status that is
-- ok, and it gets through unchanged.
fetch_with_error_handling-eq-fulfilled_iff :
    (fetched : Outcome Response) (response : Response)
    → (fetch_with_error_handling fetched ≡ fulfilled response)
      ↔ ((fetched ≡ fulfilled response) × (response.is_ok ≡ true))
unfolding fetch_with_error_handling
fetch_with_error_handling-eq-fulfilled_iff (rejected e) response = ground arith
fetch_with_error_handling-eq-fulfilled_iff (fulfilled r) response = ground arith

-- A unit above 255 is no white space to `Headers`, and no header can carry it.
unit_wide : (c : ℕ) → 255 < c → (is_http_space c ≡ false) × (is_header_unit c ≡ false)
unfolding is_http_space is_header_unit
unit_wide c h = ground arith

append_header_wide :
    (name : String) (value : Str) (headers : List (String × Str)) (i : ℕ) {c : ℕ}
    → get_elem? value i ≡ some c
    → 255 < c
    → append_header name value headers ≡ rejected (str "TypeError")
unfolding append_header
append_header_wide name value headers i {c} h wide =
    let (space, unit) = unit_wide c wide in
    elim (Bool-cases (all is_header_unit (strip is_http_space value))) [
      | inl e ↦ cc (all-strip is_http_space is_header_unit value i h space e, unit)
      | inr e ↦ rw e
    ]

-- A file whose name has a code unit above 255 anywhere is not uploaded: the function throws before
-- it sends a request.
file_upload_request_wide :
    (f : File) (fid : Str) (i : ℕ) {c : ℕ}
    → get_elem? f.name i ≡ some c
    → 255 < c
    → file_upload_request f fid ≡ rejected (str "TypeError")
unfolding file_upload_request
file_upload_request_wide f fid i h wide = rw (append_header_wide "file-name" f.name [] i h wide)
