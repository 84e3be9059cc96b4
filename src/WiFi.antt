-- ===== src/WiFi.antt =====
-- The class CBUSWiFi of CBUSWiFi.cpp and CBUSWiFi.h: the configuration from the file config.ini, the connection to the router, and the
-- texts of the status page. Strings are lists of characters. The file system, the parser of INI files and the radio are not part of the
-- library: what they answer is an argument.
pub mod Client
pub mod Page
pub mod Connect
mod Tests
use cbuspico_lib.Common.{
  ℕ, ◌+◌, ◌-◌, ◌*◌, ◌^◌, Bool, true, false, ◌&&◌, ◌||◌, Option, none, some, List, [], ◌∷◌, leb,
  ◌==◌, if◌then◌else◌, u16,
}

abbrev pub Text : Type 0
Text = List ℕ

-- `config_t`; a pointer that was never set is `none`.
pub record WifiConfig : Type 0 where
  pub country : Option Text
  pub ssid : Option Text
  pub passwd : Option Text
  pub wpa_auth : Bool
  pub wpa2_auth : Bool
  pub gc_enable : Bool
  pub gc_port : ℕ

-- The static member, zero at first.
abbrev pub no_config : WifiConfig
no_config = record {
  country = none;
  ssid = none;
  passwd = none;
  wpa_auth = false;
  wpa2_auth = false;
  gc_enable = false;
  gc_port = 0;
}

-- `strcmp` is zero.
unfoldable pub same_text : Text → Text → Bool
same_text [] [] = true
same_text [] (y ∷ ys) = false
same_text (x ∷ xs) [] = false
same_text (x ∷ xs) (y ∷ ys) = x == y && same_text xs ys

abbrev pub to_lower : ℕ → ℕ
to_lower c = if leb b'A' c && leb c b'Z' then c + 32 else c

abbrev pub to_upper : ℕ → ℕ
to_upper c = if leb b'a' c && leb c b'z' then c - 32 else c

-- `strcasecmp` is zero.
unfoldable pub same_letters : Text → Text → Bool
same_letters [] [] = true
same_letters [] (y ∷ ys) = false
same_letters (x ∷ xs) [] = false
same_letters (x ∷ xs) (y ∷ ys) = to_lower x == to_lower y && same_letters xs ys

abbrev pub is_digit : ℕ → Bool
is_digit c = leb b'0' c && leb c b'9'

unfoldable pub digits_value : ℕ → Text → ℕ
digits_value value [] = value
digits_value value (c ∷ cs) =
    let rest = digits_value (value * 10 + (c - b'0')) cs in if is_digit c then rest else value

abbrev pub is_space : ℕ → Bool
is_space c = c == b' ' || leb 9 c && leb c 13

abbrev pub signed_value : Text → ℕ
signed_value [] = 0
signed_value (c ∷ cs) =
    if c == b'-'
    then u16 (2 ^ 16 - u16 (digits_value 0 cs))
    else u16 (digits_value 0 (if c == b'+' then cs else c ∷ cs))

-- `atoi`, cut to a `uint16_t`. (A number too large for an `int` has no meaning there.)
unfoldable pub atoi16 : Text → ℕ
atoi16 [] = 0
atoi16 (c ∷ cs) = let rest = atoi16 cs in if is_space c then rest else signed_value (c ∷ cs)

abbrev pub text_wifi : Text
text_wifi = b'w' ∷ b'i' ∷ b'f' ∷ b'i' ∷ []

abbrev pub text_gridconnect : Text
text_gridconnect = b'g' ∷ b'r' ∷ b'i' ∷ b'd' ∷ b'c' ∷ b'o' ∷ b'n' ∷ b'n' ∷ b'e' ∷ b'c' ∷ b't' ∷ []

abbrev pub text_country : Text
text_country = b'c' ∷ b'o' ∷ b'u' ∷ b'n' ∷ b't' ∷ b'r' ∷ b'y' ∷ []

abbrev pub text_ssid : Text
text_ssid = b's' ∷ b's' ∷ b'i' ∷ b'd' ∷ []

abbrev pub text_password : Text
text_password = b'p' ∷ b'a' ∷ b's' ∷ b's' ∷ b'w' ∷ b'o' ∷ b'r' ∷ b'd' ∷ []

abbrev pub text_wpa_auth : Text
text_wpa_auth = b'w' ∷ b'p' ∷ b'a' ∷ b'_' ∷ b'a' ∷ b'u' ∷ b't' ∷ b'h' ∷ []

abbrev pub text_wpa2_auth : Text
text_wpa2_auth = b'w' ∷ b'p' ∷ b'a' ∷ b'2' ∷ b'_' ∷ b'a' ∷ b'u' ∷ b't' ∷ b'h' ∷ []

abbrev pub text_enable : Text
text_enable = b'e' ∷ b'n' ∷ b'a' ∷ b'b' ∷ b'l' ∷ b'e' ∷ []

abbrev pub text_port : Text
text_port = b'p' ∷ b'o' ∷ b'r' ∷ b't' ∷ []

abbrev pub text_true : Text
text_true = b't' ∷ b'r' ∷ b'u' ∷ b'e' ∷ []

-- One line of the file.
pub record Entry : Type 0 where
  pub section : Text
  pub name : Text
  pub value : Text

abbrev pub matches : Entry → Text → Text → Bool
matches e section name = same_text e.section section && same_text e.name name

-- The parser's callback: the new configuration, and whether the entry is known.
unfoldable pub handler : WifiConfig → Entry → WifiConfig × Bool
handler c e =
    if matches e text_wifi text_country
    then (record c { country = some e.value }, true)
    else if matches e text_wifi text_ssid
    then (record c { ssid = some e.value }, true)
    else if matches e text_wifi text_password
    then (record c { passwd = some e.value }, true)
    else if matches e text_wifi text_wpa_auth
    then (record c { wpa_auth = same_letters e.value text_true }, true)
    else if matches e text_wifi text_wpa2_auth
    then (record c { wpa2_auth = same_letters e.value text_true }, true)
    else if matches e text_gridconnect text_enable
    then (record c { gc_enable = same_letters e.value text_true }, true)
    else if matches e text_gridconnect text_port
    then (record c { gc_port = atoi16 e.value }, true)
    else (c, false)

-- The parser calls the handler for the entries that it reads, in order.
unfoldable pub handle_all : WifiConfig → List Entry → WifiConfig
handle_all c [] = c
handle_all c (e ∷ es) = handle_all (handler c e).0 es

-- What the file system and the parser answer: whether the card mounts, whether the file opens, the entries that were
-- read, and the parser's result, zero for no error.
pub record File : Type 0 where
  pub mounts : Bool
  pub opens : Bool
  pub entries : List Entry
  pub error : ℕ

-- parseINI; `none` is the result -1.
unfoldable pub parse_ini : WifiConfig → File → WifiConfig × Option ℕ
parse_ini c f = if f.opens then (handle_all c f.entries, some f.error) else (c, none)

abbrev pub is_zero : Option ℕ → Bool
is_zero none = false
is_zero (some n) = n == 0

unfoldable pub read_configuration : WifiConfig → File → WifiConfig × Bool
read_configuration c f =
    let (c', result) = parse_ini c f in if f.mounts then (c', is_zero result) else (c, false)
