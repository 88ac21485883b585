-- ===== src/Brokers/Alpaca/Keys.antt =====
-- The names of the fields in the answers.
use broker_ai.Base.{[], ◌∷◌, Text}

abbrev pub key_id : Text
key_id = b'i' ∷ b'd' ∷ []

abbrev pub key_status : Text
key_status = b's' ∷ b't' ∷ b'a' ∷ b't' ∷ b'u' ∷ b's' ∷ []

abbrev pub key_submitted_at : Text
key_submitted_at =
    b's' ∷ b'u' ∷ b'b' ∷ b'm' ∷ b'i' ∷ b't' ∷ b't' ∷ b'e' ∷ b'd' ∷ b'_' ∷ b'a' ∷ b't' ∷ []

abbrev pub key_updated_at : Text
key_updated_at = b'u' ∷ b'p' ∷ b'd' ∷ b'a' ∷ b't' ∷ b'e' ∷ b'd' ∷ b'_' ∷ b'a' ∷ b't' ∷ []

abbrev pub key_filled_at : Text
key_filled_at = b'f' ∷ b'i' ∷ b'l' ∷ b'l' ∷ b'e' ∷ b'd' ∷ b'_' ∷ b'a' ∷ b't' ∷ []

abbrev pub key_filled_qty : Text
key_filled_qty = b'f' ∷ b'i' ∷ b'l' ∷ b'l' ∷ b'e' ∷ b'd' ∷ b'_' ∷ b'q' ∷ b't' ∷ b'y' ∷ []

abbrev pub key_filled_avg_price : Text
key_filled_avg_price =
    b'f' ∷ b'i' ∷ b'l' ∷ b'l' ∷ b'e' ∷ b'd' ∷ b'_' ∷ b'a' ∷ b'v' ∷ b'g' ∷ b'_' ∷ b'p' ∷ b'r' ∷ b'i'
    ∷ b'c' ∷ b'e' ∷ []

abbrev pub key_qty : Text
key_qty = b'q' ∷ b't' ∷ b'y' ∷ []

abbrev pub key_symbol : Text
key_symbol = b's' ∷ b'y' ∷ b'm' ∷ b'b' ∷ b'o' ∷ b'l' ∷ []

abbrev pub key_avg_entry_price : Text
key_avg_entry_price =
    b'a' ∷ b'v' ∷ b'g' ∷ b'_' ∷ b'e' ∷ b'n' ∷ b't' ∷ b'r' ∷ b'y' ∷ b'_' ∷ b'p' ∷ b'r' ∷ b'i' ∷ b'c'
    ∷ b'e' ∷ []

abbrev pub key_cash : Text
key_cash = b'c' ∷ b'a' ∷ b's' ∷ b'h' ∷ []

abbrev pub key_trade : Text
key_trade = b't' ∷ b'r' ∷ b'a' ∷ b'd' ∷ b'e' ∷ []

abbrev pub key_p : Text
key_p = b'p' ∷ []

abbrev pub key_t : Text
key_t = b't' ∷ []

abbrev pub key_client_order_id : Text
key_client_order_id =
    b'c' ∷ b'l' ∷ b'i' ∷ b'e' ∷ b'n' ∷ b't' ∷ b'_' ∷ b'o' ∷ b'r' ∷ b'd' ∷ b'e' ∷ b'r' ∷ b'_' ∷ b'i'
    ∷ b'd' ∷ []

abbrev pub key_side : Text
key_side = b's' ∷ b'i' ∷ b'd' ∷ b'e' ∷ []

abbrev pub key_type : Text
key_type = b't' ∷ b'y' ∷ b'p' ∷ b'e' ∷ []

abbrev pub key_limit_price : Text
key_limit_price = b'l' ∷ b'i' ∷ b'm' ∷ b'i' ∷ b't' ∷ b'_' ∷ b'p' ∷ b'r' ∷ b'i' ∷ b'c' ∷ b'e' ∷ []
