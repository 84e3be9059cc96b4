-- ===== src/WiFi/Page.antt =====
-- The texts of the status page, ssi_handler of CBUSWiFi.cpp.
use cbuspico_lib.Common.{
  ℕ, zero, suc, ◌+◌, ◌-◌, ◌/◌, ◌%◌, ◌&&◌, not, none, some, List, [], ◌∷◌, ltb, ◌==◌, if◌then◌else◌,
  length, get_or, take, u16,
}
use cbuspico_lib.WiFi.{Text, WifiConfig}

-- The tags of the status page.
pub data Tag : Type 0 where
  lever : ℕ → Tag
  msg : Tag
  gcenable : Tag
  gcport : Tag
  country_tag : Tag
  authmode : Tag
  unknown_tag : Tag

abbrev pub tag_of : ℕ → Tag
tag_of i =
    if ltb i 20
    then lever i
    else if i == 20
    then msg
    else if i == 21
    then gcenable
    else if i == 22
    then gcport
    else if i == 23
    then country_tag
    else if i == 24
    then authmode
    else unknown_tag

-- The decimal digits of a port.
unfoldable pub decimal : ℕ → ℕ → Text → Text
decimal zero n text = text
decimal (suc rounds) n text =
    let longer = (b'0' + n % 10) ∷ text in
    let rest = decimal rounds (n / 10) longer in if n / 10 == 0 then longer else rest

abbrev pub auth_text : WifiConfig → Text
auth_text c =
    if c.wpa_auth && not c.wpa2_auth
    then b'W' ∷ b'P' ∷ b'A' ∷ []
    else if not c.wpa_auth && c.wpa2_auth
    then b'W' ∷ b'P' ∷ b'A' ∷ b'2' ∷ []
    else if c.wpa_auth && c.wpa2_auth
    then b'W' ∷ b'P' ∷ b'A' ∷ b'/' ∷ b'W' ∷ b'P' ∷ b'A' ∷ b'2' ∷ []
    else b'N' ∷ b'o' ∷ b'n' ∷ b'e' ∷ []

abbrev pub text_valid : Text
text_valid =
    b'I' ∷ b'n' ∷ b't' ∷ b'e' ∷ b'r' ∷ b'l' ∷ b'o' ∷ b'c' ∷ b'k' ∷ b'i' ∷ b'n' ∷ b'g' ∷ b' ' ∷ b'S'
    ∷ b't' ∷ b'a' ∷ b't' ∷ b'e' ∷ b' ' ∷ b'V' ∷ b'a' ∷ b'l' ∷ b'i' ∷ b'd' ∷ []

abbrev pub tag_text : WifiConfig → List ℕ → Tag → Text
tag_text c levers (lever i) = if get_or levers i 0 == 0xFF then b'0' ∷ [] else b'1' ∷ []
tag_text c levers msg = text_valid
tag_text c levers gcenable = if c.gc_enable then b'Y' ∷ b'e' ∷ b's' ∷ [] else b'N' ∷ b'o' ∷ []
tag_text c levers gcport = decimal 5 c.gc_port []
tag_text c levers country_tag = elim c.country [ none ↦ [] | some code ↦ code ]
tag_text c levers authmode = auth_text c
tag_text c levers unknown_tag = []

-- snprintf writes as much of the text as fits before the zero byte; the result is the whole length, cut to 16 bits. The levers are
-- bytes, in which -1 is 0xFF.
unfoldable pub ssi_handler : WifiConfig → List ℕ → ℕ → ℕ → Text × ℕ
ssi_handler c levers index insert_len =
    let text = tag_text c levers (tag_of index) in (take (insert_len - 1) text, u16 (length text))
