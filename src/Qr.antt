-- ===== src/Qr.antt =====
-- showQRCode of frontend/js/util.js. The library that makes the code, frontend/js/qrcodegen.js, is
-- a parameter. `drawCanvas` is called with numerals only, so its sizes are natural numbers here,
-- and the counters of its loops start at 0 in place of `-border`: the module that a round draws is
-- `border` less than the counter.
pub mod Painting
mod Tests
use teilpunkt.Base.{
  ℕ, zero, suc, ◌+◌, ◌*◌, ◌-◌, String, Str, str, Bool, List, [], ◌∷◌, ◌++◌, ◌==◌, if◌then◌else◌,
}
use teilpunkt.Base.Int.{ℤ, sub_ℕ}
use teilpunkt.Backend.Types.{Outcome, fulfilled, rejected, ◌>>=◌}

-- What the script uses of a code: the number of its modules, and whether one is dark.
pub record QrCode : Type 0 where
  pub size : ℕ
  pub get_module : ℤ → ℤ → Bool

-- `QRC.encodeText(data, QRC.Ecc.MEDIUM)`, which throws where the text is too long
abbrev pub Encoder : Type 0
Encoder = Str → Outcome QrCode

-- `fillRect` of a square, with the colour that `fillStyle` has then
pub record Square : Type 0 where
  pub left : ℕ
  pub top : ℕ
  pub side : ℕ
  pub colour : String

pub record Canvas : Type 0 where
  pub width : ℕ
  pub height : ℕ
  pub squares : List Square

module _ (qr : QrCode) (scale border : ℕ) (light dark : String) where
  -- the body of the inner loop
  pub square_at : ℕ → ℕ → Square
  square_at x y = record {
    left = x * scale;
    top = y * scale;
    side = scale;
    colour = if qr.get_module (sub_ℕ x border) (sub_ℕ y border) then dark else light;
  }

  -- The loops, with the rounds that are left.
  pub draw_row : ℕ → ℕ → ℕ → List Square
  draw_row zero x y = []
  draw_row (suc n) x y = square_at x y ∷ draw_row n (suc x) y

  pub draw_rows : ℕ → ℕ → List Square
  draw_rows zero y = []
  draw_rows (suc n) y = draw_row (qr.size + border * 2) 0 y ++ draw_rows n (suc y)

  unfoldable pub draw_canvas : Outcome Canvas
  unfolding square_at draw_row draw_rows
  draw_canvas =
      let size = (qr.size + border * 2) * scale in
      if scale == 0
      then rejected (str "Value out of range")
      else fulfilled
          (record { width = size; height = size; squares = draw_rows (qr.size + border * 2) 0 })

-- `showQRCode`: what is on the canvas afterwards
unfoldable pub show_qr_code : Encoder → Str → Outcome Canvas
unfolding draw_canvas
show_qr_code encode_text text = do qr ← encode_text text; draw_canvas qr 5 4 "#FFFFFF" "#000000"
