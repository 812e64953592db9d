-- ===== src/Boot/Macs.antt =====
-- `factory_macs`, and the form of a MAC address that `port_networks` asks for.
pub mod Sound
use edgepi_e87n.Base.{
  ℕ, zero, suc, ◌+◌, ◌-◌, ◌*◌, ◌/◌, ◌%◌, String, Bool, true, false, not, ◌&&◌, ◌||◌, List, [], ◌∷◌,
  ◌++◌, Option, none, some, ltb, leb, ◌==◌, ◌≈◌, if◌then◌else◌, length, all, elem, same_set, Bytes,
  ◌=ᵇ◌, take, drop, Result, ok, err, ◌>>=◌, ◌>>◌, require, or_raise,
}
use edgepi_e87n.Boot.{BootError, missing_key, short_read, bad_mac, same_macs}

-- value != zeros and value != ones and not value[0] & 1
abbrev first_is_even : Bytes → Bool
first_is_even [] = true
first_is_even (b ∷ bs) = b % 2 == 0

abbrev pub zeros : Bytes
zeros = 0 ∷ 0 ∷ 0 ∷ 0 ∷ 0 ∷ 0 ∷ []

abbrev pub ones : Bytes
ones = 255 ∷ 255 ∷ 255 ∷ 255 ∷ 255 ∷ 255 ∷ []

unfoldable pub is_unicast : Bytes → Bool
is_unicast value = not (value =ᵇ zeros) && not (value =ᵇ ones) && first_is_even value

-- f"{digit:x}" and f"{byte:02x}"
abbrev pub hex_digit : ℕ → ℕ
hex_digit n = if ltb n 10 then b'0' + n else b'a' + (n - 10)

abbrev pub hex_byte : ℕ → Bytes
hex_byte b = hex_digit (b / 16) ∷ hex_digit (b % 16) ∷ []

-- ":".join
unfoldable pub mac_text : Bytes → Bytes
mac_text [] = []
mac_text (b ∷ []) = hex_byte b
mac_text (b ∷ c ∷ bs) = hex_byte b ++ b':' ∷ mac_text (c ∷ bs)

unfoldable pub factory_macs : Bytes → Result BootError (Bytes × Bytes)
factory_macs data' = do
  require (length data' == 12) short_read
  require (is_unicast (take 6 data')) bad_mac
  require (is_unicast (drop 6 data')) bad_mac
  require (not (take 6 data' =ᵇ drop 6 data')) same_macs
  ok (mac_text (take 6 data'), mac_text (drop 6 data'))

-- re.fullmatch(r"(?:[0-9a-f]{2}:){5}[0-9a-f]{2}", address), as `port_networks` tests it
abbrev pub is_hex : ℕ → Bool
is_hex c = (leb b'0' c && leb c b'9') || (leb b'a' c && leb c b'f')

unfoldable pub is_mac : ℕ → Bytes → Bool
is_mac zero (a ∷ b ∷ []) = is_hex a && is_hex b
is_mac (suc more) (a ∷ b ∷ c ∷ rest) = is_hex a && is_hex b && c == b':' && is_mac more rest
is_mac _ _ = false
