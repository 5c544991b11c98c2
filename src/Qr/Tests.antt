-- ===== src/Qr/Tests.antt =====
-- A code of one dark module, drawn with a border.
use teilpunkt.Base.{◌≡◌, Bool, false, some, none, ltb, if◌then◌else◌, arith, ◌==◌, ◌&&◌}
use teilpunkt.Base.Int.{ℤ, pos}
use teilpunkt.Backend.Types.{fulfilled}
use teilpunkt.Qr.{QrCode, Canvas, draw_canvas}
use teilpunkt.Qr.Painting.{colour_at, draw_canvas_lem}

abbrev is_origin : ℤ → ℤ → Bool
is_origin (pos x) (pos y) = x == 0 && y == 0
is_origin _ _ = false

abbrev dot : QrCode
dot = record { size = 1; get_module = is_origin }

draw_canvas_lem_example :
    (canvas : Canvas) × (draw_canvas dot 2 1 "white" "black" ≡ fulfilled canvas)
    × (canvas.width ≡ 6)
    × (canvas.height ≡ 6)
    × (colour_at canvas.squares 3 2
        ≡ (if ltb 3 canvas.width && ltb 2 canvas.height then some "black" else none))
draw_canvas_lem_example = draw_canvas_lem dot 2 1 "white" "black" 3 2 (omega arith)
