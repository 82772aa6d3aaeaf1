-- ===== src/Layout/Types.antt =====
-- internal/tui/layout/types.go. A size that the solver clamps below at 0 before any use (`Basis`,
-- `Min`, `Max`, `Gap`, `HideBelow`) is an ℕ, with 0 for a negative one; paddings are signed.
use tuicord_v.Base.{ℕ, Bool}
use tuicord_v.Base.Int.{ℤ}

-- What the solver uses of `float64`: a sum, the tests `> 0` and `<= 0` (a NaN passes neither), and
-- the share `int(float64(free) * grow / total)`, by its 64 bits: any int.
pub record Floats : Type 1 where
  pub Float : Type 0
  pub zero_float : Float
  pub plus : Float → Float → Float
  pub is_positive : Float → Bool
  pub is_at_most_zero : Float → Bool
  pub share : ℕ → Float → Float → ℕ

pub data Direction : Type 0 where
  row column : Direction

pub record Insets : Type 0 where
  pub top : ℤ
  pub right : ℤ
  pub bottom : ℤ
  pub left : ℤ

-- A rectangle that the solver makes never has a negative width or height.
pub record Rect : Type 0 where
  pub x : ℤ
  pub y : ℤ
  pub w : ℕ
  pub h : ℕ

-- The fields of a node but its children. `key` is the address by which the result refers to it.
pub record Style (Float : Type 0) : Type 0 where
  pub key : ℕ
  pub hidden : Bool
  pub dir : Direction
  pub grow : Float
  pub basis : ℕ
  pub min : ℕ
  pub max : ℕ
  pub gap : ℕ
  pub padding : Insets
  pub hide_below : ℕ

-- A node with its children, of which each may be nil.
mutual
  pub data Node (Float : Type 0) : Type 0 where
    node : Style Float → Nodes Float → Node Float

  pub data Nodes (Float : Type 0) : Type 0 where
    no_nodes : Nodes Float
    nil_node : Nodes Float → Nodes Float
    cons_node : Node Float → Nodes Float → Nodes Float
