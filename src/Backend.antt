-- ===== src/Backend.antt =====
-- frontend/js/backend.js and fetchWithErrorHandling of frontend/js/util.js: the requests that the
-- pages send and what they make of the answers. A function that waits for the server is two
-- functions here: the request that it sends, and its result from the outcome of the fetch.
pub mod Types
pub mod Filename
pub mod Laws
pub mod Answers
mod Tests
use Types.{
  Outcome, fulfilled, rejected, ◌>>=◌, ◌>>◌, File, Json, Response, Body, empty, json, file, Request,
}
use Filename.{download_filename}
use teilpunkt.Base.{
  ℕ, String, Str, str, Bool, true, false, List, [], ◌∷◌, ◌++◌, ◌&&◌, ◌||◌, not, ◌==◌, leb,
  if◌then◌else◌, trim, strip, all,
}
use teilpunkt.Crypto.{Sodium, hash_password}

-- `fetchWithErrorHandling`, from the outcome of `fetch`
unfoldable pub fetch_with_error_handling : Outcome Response → Outcome Response
fetch_with_error_handling fetched = do
  response ← fetched
  if response.is_ok then fulfilled response else do error_text ← response.text; rejected error_text

abbrev json_headers : List (String × Str)
json_headers = ("Content-Type", str "application/json") ∷ []

abbrev json_request : String → String → List (String × Str) → Request
json_request url method fields = record {
  url = url;
  method = method;
  headers = json_headers;
  body = json fields;
}

-- `BackendLoginUserPassword`, once `sodium.ready` is fulfilled
unfoldable pub login_request : Sodium → Str → Str → Str → Request
login_request sodium username password totp =
    json_request "/api/auth/password" "POST"
      (("name", username) ∷ ("password", hash_password sodium password) ∷ ("totp", totp) ∷ [])

-- Its result is the response.
unfoldable pub login_result : Outcome Response → Outcome Response
login_result fetched = fetch_with_error_handling fetched

-- `BackendRegisterUserPassword`, once `sodium.ready` is fulfilled
unfoldable pub register_request : Sodium → Str → Str → Request
register_request sodium username password = record {
  url = "/api/register/password";
  method = "POST";
  headers = ("Content-Type", str "application/json") ∷ ("Auth-Method", str "password") ∷ [];
  body = json (("name", trim username) ∷ ("password", hash_password sodium password) ∷ []);
}

unfoldable pub register_result : Outcome Response → Outcome Str
register_result fetched = do result ← fetch_with_error_handling fetched; result.text

-- `BackendFetchUserRoots`: a fetch with no options
unfoldable pub roots_request : Request
roots_request = record { url = "/api/filesystem/roots"; method = "GET"; headers = []; body = empty }

unfoldable pub roots_result : Outcome Response → Outcome Json
roots_result fetched = do response ← fetch_with_error_handling fetched; response.json

-- `BackendDirLookup`
unfoldable pub dir_lookup_request : Str → Request
dir_lookup_request directory_id =
    json_request "/api/filesystem/dirLookup" "POST" (("directory", directory_id) ∷ [])

unfoldable pub dir_lookup_result : Outcome Response → Outcome Json
dir_lookup_result fetched = do response ← fetch_with_error_handling fetched; response.json

-- `BackendDirCreate`, `BackendDirDelete`, `BackendFileCreate` and `BackendFileDelete`
unfoldable pub dir_create_request : Str → Str → Request
dir_create_request directory name =
    json_request "/api/filesystem/dir" "POST" (("name", name) ∷ ("directory", directory) ∷ [])

unfoldable pub dir_delete_request : Str → Request
dir_delete_request directory =
    json_request "/api/filesystem/dir" "DELETE" (("file", directory) ∷ [])

unfoldable pub file_create_request : Str → Str → Request
file_create_request directory name =
    json_request "/api/filesystem/file" "POST" (("name", name) ∷ ("directory", directory) ∷ [])

unfoldable pub file_delete_request : Str → Request
file_delete_request fid = json_request "/api/filesystem/file" "DELETE" (("file", fid) ∷ [])

-- These four only wait for the answer.
unfoldable pub done_result : Outcome Response → Outcome (Unit {0})
done_result fetched = do _ ← fetch_with_error_handling fetched; fulfilled tt

-- The white space that `Headers` takes off both ends of a value.
is_http_space : ℕ → Bool
is_http_space c = c == 9 || c == 10 || c == 13 || c == 32

-- A code unit that may stand in the value of a header.
is_header_unit : ℕ → Bool
is_header_unit c = leb c 255 && not (c == 0 || c == 10 || c == 13)

-- `headers.append(name, value)`, which throws on a value that no header can carry
append_header : String → Str → List (String × Str) → Outcome (List (String × Str))
unfolding is_http_space is_header_unit
append_header name value headers =
    let normal = strip is_http_space value in
    if all is_header_unit normal
    then fulfilled (headers ++ (name, normal) ∷ [])
    else rejected (str "TypeError")

-- `BackendFileUpload`: it throws before it sends anything if a header is refused.
unfoldable pub file_upload_request : File → Str → Outcome Request
unfolding append_header
file_upload_request f fid = do
  named ← append_header "file-name" f.name []
  headers ← append_header "directory" fid named
  fulfilled
      (record { url = "/api/filesystem/upload"; method = "POST"; headers = headers; body = file f })

-- Its `try` swallows the error of the fetch.
unfoldable pub file_upload_result : Outcome Response → Outcome (Unit {0})
file_upload_result fetched = elim (fetch_with_error_handling fetched) [
  | fulfilled _ ↦ fulfilled tt
  | rejected _ ↦ fulfilled tt
]

-- `BackendFileDownload`
unfoldable pub file_download_request : Str → Outcome Request
unfolding append_header
file_download_request fid = do
  headers ← append_header "file" fid []
  fulfilled (record {
    url = "/api/filesystem/download";
    method = "POST";
    headers = headers;
    body = empty;
  })

-- What the link that it clicks saves: a name and the content.
unfoldable pub file_download_result : Outcome Response → Outcome (Str × Str)
unfolding download_filename
file_download_result fetched = do
  response ← fetch_with_error_handling fetched
  let filename = download_filename response.content_disposition
  blob ← response.blob
  fulfilled (filename, blob)
