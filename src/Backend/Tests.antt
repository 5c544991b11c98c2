-- ===== src/Backend/Tests.antt =====
-- The downloads at concrete answers.
use teilpunkt.Base.{◌≡◌, refl, some, none, str, arith}
use teilpunkt.Backend.Filename.{download_filename, download_filename-unquoted}

download_filename-unquoted_example :
    download_filename (some (str "attachment; filename=a b.txt")) ≡ str "a b.txt"
download_filename-unquoted_example =
    download_filename-unquoted (str "a b.txt") (λ e. cc) (omega arith)

download_filename_tests :
    (download_filename none ≡ str "download")
    × (download_filename (some (str "inline")) ≡ str "download")
    × (download_filename (some (str "attachment; filename=\"\"")) ≡ str "download")
unfolding download_filename
download_filename_tests = (refl, refl, refl)
