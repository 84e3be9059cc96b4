-- ===== src/WiFi/Client.antt =====
-- InitializeClient of CBUSWiFi.cpp: the country, the authentication method and the connection to the router.
use cbuspico_lib.Common.{
  ℕ, zero, suc, ◌+◌, Bool, true, false, ◌&&◌, not, Option, none, some, List, [], ◌∷◌, if◌then◌else◌,
}
use cbuspico_lib.WiFi.{Text, WifiConfig, to_upper, same_letters, File, read_configuration}

-- The authentication methods of the radio.
pub data Auth : Type 0 where
  auth_open : Auth
  auth_wpa : Auth
  auth_wpa2 : Auth
  auth_mixed : Auth

unfoldable pub auth_of : WifiConfig → Auth
auth_of c =
    if c.wpa_auth && not c.wpa2_auth
    then auth_wpa
    else if not c.wpa_auth && c.wpa2_auth
    then auth_wpa2
    else if c.wpa_auth && c.wpa2_auth
    then auth_mixed
    else auth_open

-- Two letters, or the whole world.
pub data Country : Type 0 where
  worldwide : Country
  uk : Country
  letters : ℕ → ℕ → Country

abbrev pub first_letters : Text → Country
first_letters [] = worldwide
first_letters (x ∷ []) = worldwide
first_letters (x ∷ (y ∷ rest)) = letters (to_upper x) (to_upper y)

-- A country that was not configured is read through a null pointer: `none`.
unfoldable pub country_of : WifiConfig → Option Country
country_of c = elim c.country [
  | none ↦ none
  | some code ↦ some (if same_letters code (b'U' ∷ b'K' ∷ []) then uk else first_letters code)
]

-- The retries: each answer of the radio is whether the connection succeeded, and the result counts the calls.
unfoldable pub retry : List Bool → ℕ → ℕ → Bool × ℕ
retry answers zero calls = (false, calls)
retry [] (suc retries) calls = (false, calls)
retry (ok ∷ answers) (suc retries) calls =
    let rest = retry answers retries (calls + 1) in if ok then (true, calls + 1) else rest

-- The first attempt, and four more.
unfoldable pub connect : List Bool → Bool × ℕ
connect [] = (false, 0)
connect (ok ∷ answers) = let rest = retry answers 4 1 in if ok then (true, 1) else rest

-- What InitializeClient ends with: the parameters of the connection, and whether it stands. `none` is the read through
-- the null pointer. The loop for ever when the radio fails to start without a configuration is not a result.
pub record Connection : Type 0 where
  pub ssid : Option Text
  pub passwd : Option Text
  pub auth : Auth
  pub country : Country
  pub connected : Bool

abbrev pub client_with : WifiConfig → Bool → List Bool → Option Country → Option (Option Connection)
client_with c radio answers none = none
client_with c radio answers (some country) =
    if radio
    then some (
        some (record {
          ssid = c.ssid;
          passwd = c.passwd;
          auth = auth_of c;
          country = country;
          connected = (connect answers).0;
        }))
    else some none

-- `some none` is a client that did not start.
unfoldable pub initialize_client :
    WifiConfig → File → Bool → List Bool → WifiConfig × Option (Option Connection)
initialize_client c f radio answers =
    let (c', ok) = read_configuration c f in
    if ok then (c', client_with c' radio answers (country_of c')) else (c', some none)
