-- ===== src/Parser/Registry.antt =====
-- services/parser/internal/banks/registry.go.
use richpayment.Base.{String, Bool, true, false, Option, none, some, List, [], ◌∷◌, if◌then◌else◌}
use richpayment.Parser.Types.{BankParser, Texts, same}

module _ {D : Type 0} ⦃texts : Texts⦄ where
  -- the loop of `FindParser`
  abbrev pub first_parser : List (BankParser D) → (sender message : String) → Option (BankParser D)
  first_parser [] sender message = none
  first_parser (p ∷ ps) sender message =
      if p.can_parse sender message then some p else first_parser ps sender message

  -- `FindParser`
  unfoldable pub find_parser :
      List (BankParser D) → (sender message : String) → Option (BankParser D)
  find_parser parsers sender message = first_parser parsers (texts.trim sender) (texts.trim message)

abbrev pub has_sender : List String → String → Bool
has_sender [] sender = false
has_sender (s ∷ ss) sender = if same s sender then true else has_sender ss sender

-- the loops of `IsKnownSender`
abbrev pub any_sender : {D : Type 0} → List (BankParser D) → String → Bool
any_sender [] sender = false
any_sender (p ∷ ps) sender =
    if has_sender p.valid_senders sender then true else any_sender ps sender

-- `IsKnownSender`
unfoldable pub is_known_sender : {D : Type 0} ⦃texts : Texts⦄ → List (BankParser D) → String → Bool
is_known_sender ⦃texts⦄ parsers sender = any_sender parsers (texts.trim sender)
