-- ===== src/WiFi/Connect.antt =====
-- What InitializeClient of CBUSWiFi.cpp asks of the radio.
use cbuspico_lib.Common.{
  ℕ, zero, suc, ◌+◌, ◌-◌, ◌≤◌, ◌≡◌, refl, ap, ◌∙◌, inl, inr, Bool, false, ◌||◌, List, [], ◌∷◌,
  arith, Bool-cases, length, take, u16,
}
use cbuspico_lib.WiFi.{Text, WifiConfig}
use cbuspico_lib.WiFi.Client.{
  Auth, auth_open, auth_wpa, auth_wpa2, auth_mixed, auth_of, connect, retry,
}
use cbuspico_lib.WiFi.Page.{auth_text, ssi_handler}

-- The name of a method.
abbrev pub name_of : Auth → Text
name_of auth_open = b'N' ∷ b'o' ∷ b'n' ∷ b'e' ∷ []
name_of auth_wpa = b'W' ∷ b'P' ∷ b'A' ∷ []
name_of auth_wpa2 = b'W' ∷ b'P' ∷ b'A' ∷ b'2' ∷ []
name_of auth_mixed = b'W' ∷ b'P' ∷ b'A' ∷ b'/' ∷ b'W' ∷ b'P' ∷ b'A' ∷ b'2' ∷ []

short_name : (a : Auth) → u16 (length (name_of a)) ≡ length (name_of a)
short_name auth_open = refl
short_name auth_wpa = refl
short_name auth_wpa2 = refl
short_name auth_mixed = refl

auth_text-name_of : (c : WifiConfig) → auth_text c ≡ name_of (auth_of c)
unfolding auth_of
auth_text-name_of c = elim (Bool-cases c.wpa_auth) [
  | inl a ↦ elim (Bool-cases c.wpa2_auth) [ inl b ↦ rw (a, b) refl | inr b ↦ rw (a, b) refl ]
  | inr a ↦ elim (Bool-cases c.wpa2_auth) [ inl b ↦ rw (a, b) refl | inr b ↦ rw (a, b) refl ]
]

-- The status page names the authentication method that the client connects with, whatever the two settings are: as much of
-- the name as fits, and the length of all of it.
pub ssi_handler-auth :
    (c : WifiConfig) (levers : List ℕ) (insert_len : ℕ)
    → ssi_handler c levers 24 insert_len
      ≡ (take (insert_len - 1) (name_of (auth_of c)), length (name_of (auth_of c)))
unfolding ssi_handler
ssi_handler-auth c levers insert_len =
    ap (λ t. (take (insert_len - 1) t, u16 (length t))) (auth_text-name_of c)
    ∙ ap (λ n. (take (insert_len - 1) (name_of (auth_of c)), n)) (short_name (auth_of c))

-- One of the first answers is a success.
abbrev pub any_of : ℕ → List Bool → Bool
any_of zero answers = false
any_of (suc n) [] = false
any_of (suc n) (ok ∷ answers) = ok || any_of n answers

retry-any_of :
    (answers : List Bool) (retries calls : ℕ)
    → ((retry answers retries calls).0 ≡ any_of retries answers)
      × ((retry answers retries calls).1 ≤ calls + retries)
unfolding retry
retry-any_of answers zero calls = (refl, omega arith)
retry-any_of [] (suc retries) calls = (refl, omega arith)
retry-any_of (ok ∷ answers) (suc retries) calls =
    let (found, few) = retry-any_of answers retries (calls + 1) in
    elim (Bool-cases ok) [
      | inl yes_ok ↦ rw yes_ok (refl, omega arith)
      | inr failed ↦ rw failed (found, omega arith)
    ]

-- The client ends connected exactly if one of the radio's first five answers is a success, and it never asks more than
-- five times.
pub connect-any_of :
    (answers : List Bool) → ((connect answers).0 ≡ any_of 5 answers) × ((connect answers).1 ≤ 5)
unfolding connect
connect-any_of [] = (refl, omega arith)
connect-any_of (ok ∷ answers) =
    let (found, few) = retry-any_of answers 4 1 in
    elim (Bool-cases ok) [
      | inl yes_ok ↦ rw yes_ok (refl, omega arith)
      | inr failed ↦ rw failed (found, omega arith)
    ]
