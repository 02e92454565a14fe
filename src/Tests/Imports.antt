-- ===== src/Tests/Imports.antt =====
-- Phones and imports, with a small phone number library.
use text.Mathlib.Text.{◌==◌ as ◌≈◌}
use tools_tele_t_ng.Base.{true, none, some, String, [], ◌∷◌, if◌then◌else◌, arith}
use Prim.Native.Nat.{min}
use tools_tele_t_ng.PhoneUtils.{PhoneNumbers}
use tools_tele_t_ng.Import.Create.{Source}
use tools_tele_t_ng.Import.Deal.{distribute}
use tools_tele_t_ng.Import.Dealt.{IsShared, distribute_lem}

-- A library that knows one number, under two spellings.
abbrev pub one_number : PhoneNumbers
one_number = record {
  Number = Unit {0};
  parse = λ raw region.
      if raw ≈ "+84912345678" then some tt else if raw ≈ "0912345678" then some tt else none;
  is_valid_number = λ n. true;
  format_e164 = λ n. "+84912345678";
}

abbrev source : Source
source = record { default_phone_region = none; api_phone_number = some 5; max_attempts = 5 }

abbrev two_lines : String
two_lines = "0912345678, x\n+84912345678"

distribute_lem_example :
    IsShared (min 2 3) ("a" ∷ "b" ∷ "c" ∷ []) (distribute (4 ∷ 5 ∷ []) ("a" ∷ "b" ∷ "c" ∷ []))
distribute_lem_example =
    distribute_lem (4 ∷ 5 ∷ []) ("a" ∷ "b" ∷ "c" ∷ []) (omega arith) (omega arith)
