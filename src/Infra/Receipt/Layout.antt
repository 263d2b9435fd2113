-- ===== src/Infra/Receipt/Layout.antt =====
-- Where a receipt's drawing goes.
use vanguard_settlement_engi.Base.{ℕ, ◌+◌, ◌≤◌}
use vanguard_settlement_engi.Infra.Receipt.{Draw, text, centred, line, fill, border}

-- The extent of what is drawn, a text's by the height of its letters: left, top, right and bottom.
abbrev pub left_of : Draw → ℕ
left_of (text style x y s) = x
left_of (centred style x y w s) = x
left_of (line x y x' y' colour w) = x
left_of (fill x y w h radius colour) = x
left_of (border x y w h colour width) = x

abbrev pub top_of : Draw → ℕ
top_of (text style x y s) = y
top_of (centred style x y w s) = y
top_of (line x y x' y' colour w) = y
top_of (fill x y w h radius colour) = y
top_of (border x y w h colour width) = y

abbrev pub right_of : Draw → ℕ
right_of (text style x y s) = x
right_of (centred style x y w s) = x + w
right_of (line x y x' y' colour w) = x'
right_of (fill x y w h radius colour) = x + w
right_of (border x y w h colour width) = x + w

abbrev pub bottom_of : Draw → ℕ
bottom_of (text style x y s) = y + style.size
bottom_of (centred style x y w s) = y + style.size
bottom_of (line x y x' y' colour w) = y'
bottom_of (fill x y w h radius colour) = y + h
bottom_of (border x y w h colour width) = y + h

-- Between the margins of 50 points of an A4 page of 595 by 841.
pub record IsWithin (left top right bottom : ℕ) (d : Draw) : Type 0 where
  pub from_left : left ≤ left_of d
  pub from_top : top ≤ top_of d
  pub to_right : right_of d ≤ right
  pub to_bottom : bottom_of d ≤ bottom
