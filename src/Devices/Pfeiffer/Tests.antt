-- ===== src/Devices/Pfeiffer/Tests.antt =====
-- Telegrams of a pump controller at address 1.
use foxtrot.Base.{ℕ, ◌≡◌, refl, true, some, List, [], ◌∷◌, arith, ok, length}
use foxtrot.Base.Int.{pos}
use foxtrot.Base.Decimal.{set_width, decimal}
use foxtrot.Devices.Pfeiffer.{
  describe, calculate_checksum, semantic_message, telegram, interpret_response_telegram,
}
use foxtrot.Devices.Pfeiffer.Telegram.{interpret_response_telegram-telegram}

-- "000633"
abbrev speed : List ℕ
speed = 48 ∷ 48 ∷ 48 ∷ 54 ∷ 51 ∷ 51 ∷ []

-- "0011030906000633"
abbrev answer : List ℕ
answer = 48 ∷ 48 ∷ 49 ∷ 49 ∷ 48 ∷ 51 ∷ 48 ∷ 57 ∷ 48 ∷ 54 ∷ speed

-- "0010030902=?"
abbrev request : List ℕ
request = 48 ∷ 48 ∷ 49 ∷ 48 ∷ 48 ∷ 51 ∷ 48 ∷ 57 ∷ 48 ∷ 50 ∷ 61 ∷ 63 ∷ []

answer_lem : semantic_message 1 309 describe (some speed) ≡ ok answer
unfolding semantic_message set_width decimal
answer_lem = refl

answer_width : length (calculate_checksum true answer) ≡ 3
unfolding calculate_checksum set_width decimal
answer_width = refl

-- The sum of the first four bytes is 200, which the last one does not carry to 256.

interpret_response_telegram-telegram_example :
    interpret_response_telegram true (telegram true answer)
    ≡ ok (record { address = pos 1; parameter = pos 309; payload = speed })
interpret_response_telegram-telegram_example =
    interpret_response_telegram-telegram true 1 309 speed answer (omega arith) (omega arith)
      (omega arith) answer_lem answer_width
