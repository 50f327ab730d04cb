-- ===== src/Flow/Token.antt =====
-- csapex_core/src/model/token.cpp and the enumeration of activity_modifier.h.
use csapex.Base.{ℕ, Bool, true, false}
use csapex.Base.Int.{ℤ, minus_one}

-- `NoMessage` is a `MarkerMessage`; the number tells other messages apart.
pub data TokenData : Type 0 where
  no_message : TokenData
  marker : ℕ → TokenData
  message : ℕ → TokenData

pub data ActivityModifier : Type 0 where
  none activate deactivate inhibit : ActivityModifier

pub record Token : Type 0 where
  pub data_ : TokenData
  pub activity_modifier : ActivityModifier
  pub seq_no : ℤ

unfoldable pub make_empty_no_message : Token
make_empty_no_message = record { data_ = no_message; activity_modifier = none; seq_no = minus_one }

abbrev pub is_marker_message : TokenData → Bool
is_marker_message no_message = true
is_marker_message (marker n) = true
is_marker_message (message n) = false

abbrev pub is_no_message : TokenData → Bool
is_no_message no_message = true
is_no_message _ = false

abbrev pub modifies_activity : ActivityModifier → Bool
modifies_activity none = false
modifies_activity _ = true

abbrev pub is_activate : ActivityModifier → Bool
is_activate activate = true
is_activate _ = false

abbrev pub is_deactivate : ActivityModifier → Bool
is_deactivate deactivate = true
is_deactivate _ = false

unfoldable pub has_activity_modifier : Token → Bool
has_activity_modifier t = modifies_activity t.activity_modifier
