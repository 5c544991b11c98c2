-- ===== src/Qr/Painting.antt =====
-- What is to be seen on the canvas.
use teilpunkt.Base.{
  ℕ, zero, suc, ◌+◌, ◌*◌, ◌/◌, ◌<◌, ◌≡◌, refl, String, Bool, ◌&&◌, Option, none, some, List, [],
  ◌∷◌, ◌++◌, ◌==◌, leb, ltb, if◌then◌else◌, arith, ◌∙◌,
}
use native.Mathlib.Nat.{div-lt_iff_lt-mul}
use teilpunkt.Base.Int.{sub_ℕ}
use teilpunkt.Backend.Types.{fulfilled}
use teilpunkt.Qr.{QrCode, Square, Canvas, square_at, draw_row, draw_rows, draw_canvas}

-- A square covers the pixels from its corner on, and what is drawn later is on top.
covers : Square → ℕ → ℕ → Bool
covers s px py =
    (leb s.left px && ltb px (s.left + s.side)) && (leb s.top py && ltb py (s.top + s.side))

abbrev or_else : Option String → Option String → Option String
or_else none o = o
or_else (some c) o = some c

-- The colour of a pixel; `none` where nothing is drawn.
pub colour_at : List Square → ℕ → ℕ → Option String
unfolding covers
colour_at [] px py = none
colour_at (s ∷ ss) px py =
    or_else (colour_at ss px py) (if covers s px py then some s.colour else none)

or_else_assoc : (a b c : Option String) → or_else (or_else a b) c ≡ or_else a (or_else b c)
or_else_assoc none b c = refl
or_else_assoc (some x) b c = refl

colour_at-append :
    (below above : List Square) (px py : ℕ)
    → colour_at (below ++ above) px py ≡ or_else (colour_at above px py) (colour_at below px py)
unfolding colour_at
colour_at-append [] above px py = ground arith
colour_at-append (s ∷ below) above px py =
    rw (colour_at-append below above px py) (or_else_assoc (colour_at above px py) _ _)

-- The pixels of a stripe of width `w` are those whose quotient by `w` is its number.
stripe : (w i p : ℕ) → 0 < w → (leb (i * w) p && ltb p (i * w + w)) ≡ (p / w == i)
stripe w i p h = grind arith

at_same_place :
    (a x b y : ℕ) (f : ℕ → ℕ → String)
    → (if (a == x) && (b == y) then some (f x y) else none)
      ≡ (if (a == x) && (b == y) then some (f a b) else none)
at_same_place a x b y f = ground arith

-- The colour of the module that the pixel lies in.
abbrev pub module_colour : QrCode → ℕ → ℕ → String → String → ℕ → ℕ → String
module_colour qr scale border light dark px py =
    if qr.get_module (sub_ℕ (px / scale) border) (sub_ℕ (py / scale) border) then dark else light

module _ (qr : QrCode) (scale border : ℕ) (light dark : String) (positive : 0 < scale)
    (px py : ℕ) where
  covers-square_at :
      (x y : ℕ)
      → covers (square_at qr scale border light dark x y) px py
        ≡ ((px / scale == x) && (py / scale == y))
  unfolding covers square_at
  covers-square_at x y = rw (stripe scale x px positive, stripe scale y py positive)

  colour_at-square_at :
      (x y : ℕ)
      → (if covers (square_at qr scale border light dark x y) px py
          then some (square_at qr scale border light dark x y).colour
          else none)
        ≡ (if (px / scale == x) && (py / scale == y)
            then some (module_colour qr scale border light dark px py)
            else none)
  unfolding square_at
  colour_at-square_at x y = rw (covers-square_at x y) (
      at_same_place (px / scale) x (py / scale) y
        (λ a b. if qr.get_module (sub_ℕ a border) (sub_ℕ b border) then dark else light))

  colour_at-draw_row :
      (n x y : ℕ)
      → colour_at (draw_row qr scale border light dark n x y) px py ≡ (
          if (leb x (px / scale) && ltb (px / scale) (x + n)) && (py / scale == y)
          then some (module_colour qr scale border light dark px py)
          else none)
  unfolding colour_at draw_row
  colour_at-draw_row zero x y = ground arith
  colour_at-draw_row (suc n) x y =
      rw (colour_at-square_at x y, colour_at-draw_row n (suc x) y) (ground arith)

  colour_at-draw_rows :
      (n y : ℕ)
      → colour_at (draw_rows qr scale border light dark n y) px py ≡ (
          if ltb (px / scale) (qr.size + border * 2)
            && (leb y (py / scale) && ltb (py / scale) (y + n))
          then some (module_colour qr scale border light dark px py)
          else none)
  unfolding draw_rows
  colour_at-draw_rows zero y = unfold colour_at in ground arith
  colour_at-draw_rows (suc n) y =
      rw
        (
          colour_at-append (draw_row qr scale border light dark (qr.size + border * 2) 0 y)
              (draw_rows qr scale border light dark n (suc y)) px py,
          colour_at-draw_row (qr.size + border * 2) 0 y,
          colour_at-draw_rows n (suc y),
        )
        (ground arith)

-- With a positive scale the canvas is a square that has room for the code and a border on each
-- side. Each of its pixels has the colour of the module that lies there, the border counting as
-- modules outside the code, and nothing is drawn outside of it.
pub draw_canvas_lem :
    (qr : QrCode) (scale border : ℕ) (light dark : String) (px py : ℕ)
    → 0 < scale
    → let n = qr.size + border * 2 in
      (canvas : Canvas) × (draw_canvas qr scale border light dark ≡ fulfilled canvas)
      × (canvas.width ≡ n * scale)
      × (canvas.height ≡ n * scale)
      × (colour_at canvas.squares px py ≡ (
          if ltb px canvas.width && ltb py canvas.height
          then some (module_colour qr scale border light dark px py)
          else none))
unfolding draw_canvas
draw_canvas_lem qr scale border light dark px py positive =
    let n = qr.size + border * 2 in
    let inside = div-lt_iff_lt-mul {k = scale} {x = px} {y = n} positive in
    let inside' = div-lt_iff_lt-mul {k = scale} {x = py} {y = n} positive in
    (
      record {
        width = n * scale;
        height = n * scale;
        squares = draw_rows qr scale border light dark n 0;
      },
      ground arith,
      refl,
      refl,
      colour_at-draw_rows qr scale border light dark positive px py n 0 ∙ ground arith,
    )
