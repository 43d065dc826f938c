-- ===== src/Base/Go.antt =====
-- The functions of Go's libraries on texts and addresses that depend on Unicode's tables or on the
-- grammar of addresses: parameters of the model, so that a theorem holds whatever they answer.
use Prim.Native.String.{String}
use mathlib.Core.Bool.{Bool}
use mathlib.Core.List.{List}
use mathlib.Core.Option.{Option}

pub record GoText : Type 0 where
  -- `strings.ToLower`, `strings.TrimSpace`, `strings.EqualFold` and `strings.Contains`.
  pub to_lower : String → String
  pub trim_space : String → String
  pub equal_fold : String → String → Bool
  pub text_contains : String → String → Bool
  -- `strings.Trim(s, "<>")`.
  pub trim_angles : String → String
  -- `strings.Split(s, ",")` and `strings.Fields`.
  pub split_commas : String → List String
  pub fields : String → List String
  -- `mail.ParseAddress`: the name and the address, where it succeeds.
  pub parse_address : String → Option (String × String)
  -- `mail.ParseAddressList`, each address in the form of its method `String`.
  pub parse_address_list : String → Option (List String)
