-- ===== src/PhoneUtils.antt =====
-- telegram_phone_number_checker/phone_utils.py. The phone number library is an argument: how it
-- parses, validates and prints numbers.
use Prim.Native.Char.{Char, code}
use text.Mathlib.Text.{starts_with}
use tools_tele_t_ng.Base.{
  Bool, true, false, ◌&&◌, ◌||◌, Option, none, some, String, is_null, not, leb, if◌then◌else◌,
}

-- `parse` returns `none` where the library raises a `NumberParseException`.
pub record PhoneNumbers : Type 1 where
  pub Number : Type 0
  pub parse : String → Option String → Option Number
  pub is_valid_number : Number → Bool
  pub format_e164 : Number → String

-- The blanks of ASCII, which `str.strip` cuts.
abbrev pub is_blank_char : Char → Bool
is_blank_char c = (leb 9 (code c) && leb (code c) 13) || (leb 28 (code c) && leb (code c) 32)

strip_left : String → String
strip_left String.[] = String.[]
strip_left (String.◌∷◌ c s) = if is_blank_char c then strip_left s else String.◌∷◌ c s

abbrev pub is_empty : String → Bool
is_empty String.[] = true
is_empty _ = false

strip_right : String → String
strip_right String.[] = String.[]
strip_right (String.◌∷◌ c s) =
    let rest = strip_right s in
    if is_blank_char c && is_empty rest then String.[] else String.◌∷◌ c rest

unfoldable pub strip : String → String
unfolding strip_left strip_right
strip s = strip_right (strip_left s)

-- Python's `default_region or "VN"`.
abbrev pub region_or : Option String → String
region_or none = "VN"
region_or (some String.[]) = "VN"
region_or (some region) = region

module _ (p : PhoneNumbers) where
  open p use {parse, is_valid_number, format_e164}

  -- `none` is a `PhoneNormalizationError`.
  unfoldable pub normalize_phone : Option String → Option String → Option String
  unfolding strip
  normalize_phone none default_region = none
  normalize_phone (some raw) default_region =
      let value = strip raw in
      if is_empty value
      then none
      else elim (if starts_with value "+"
          then parse value none
          else parse value (some (region_or default_region))) [
            | none ↦ none
            | some parsed ↦ if is_valid_number parsed then some (format_e164 parsed) else none
          ]

  unfoldable pub is_valid_phone : Option String → Bool
  unfolding normalize_phone
  is_valid_phone raw = not (is_null (normalize_phone raw none))
