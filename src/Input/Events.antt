-- ===== src/Input/Events.antt =====
-- internal/tui/input/events.go: the events. A rune is a number, a text the list of its bytes.
use tuicord_v.Base.{ℕ, Bool, false, List}

-- `Mod`, a set of bits.
pub record Mod : Type 0 where
  pub shift : Bool
  pub alt : Bool
  pub ctrl : Bool
  pub super : Bool
  pub hyper : Bool
  pub meta : Bool

abbrev pub no_mods : Mod
no_mods = record {
  shift = false;
  alt = false;
  ctrl = false;
  super = false;
  hyper = false;
  meta = false;
}

pub data Key : Type 0 where
  unknown rune esc enter tab backspace up down right left home end page_up page_down delete insert
        f1 f2 f3 f4 f5 f6 f7 f8 f9 f10 f11 f12 :
      Key

pub record KeyEvent : Type 0 where
  pub key : Key
  pub mods : Mod
  pub code : ℕ
  pub release : Bool

pub data Button : Type 0 where
  no_button left_button middle_button right_button wheel_up wheel_down wheel_left wheel_right :
      Button

pub data MouseKind : Type 0 where
  press released motion wheel : MouseKind

pub record MouseEvent : Type 0 where
  pub x : ℕ
  pub y : ℕ
  pub btn : Button
  pub mods : Mod
  pub kind : MouseKind

pub data Event : Type 0 where
  key_event : KeyEvent → Event
  mouse_event : MouseEvent → Event
  paste_event : List ℕ → Event
  focus_event : Bool → Event
  tick_event : Event

-- A key press.
abbrev pub pressed : Key → Mod → ℕ → KeyEvent
pressed key mods code = record { key = key; mods = mods; code = code; release = false }
