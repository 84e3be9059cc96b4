-- ===== src/WiFi/Tests.antt =====
-- A configuration file, and the theorems at inputs that meet their hypotheses.
use cbuspico_lib.Common.{◌≤◌, ◌≡◌, refl, true, false, List, [], ◌∷◌}
use cbuspico_lib.WiFi.{
  no_config, Entry, File, handler, handle_all, same_text, same_letters, digits_value, atoi16,
  read_configuration, parse_ini, text_wifi, text_gridconnect, text_wpa2_auth, text_port,
}
use cbuspico_lib.WiFi.Client.{connect}
use cbuspico_lib.WiFi.Page.{decimal, tag_text, gcport}
use cbuspico_lib.WiFi.Connect.{connect-any_of}

abbrev lines : List Entry
lines =
    record { section = text_wifi; name = text_wpa2_auth; value = b'T' ∷ b'R' ∷ b'U' ∷ b'E' ∷ [] }
    ∷ record {
      section = text_gridconnect;
      name = text_port;
      value = b'5' ∷ b'5' ∷ b'5' ∷ b'0' ∷ [];
    }
    ∷ []

abbrev file : File
file = record { mounts = true; opens = true; entries = lines; error = 0 }

read_file :
    read_configuration no_config file
    ≡ (record no_config { wpa2_auth = true; gc_port = 5550 }, true)
unfolding read_configuration parse_ini handle_all handler same_text same_letters atoi16 digits_value
read_file = refl

port_text :
    tag_text (record no_config { gc_port = 5550 }) [] gcport ≡ b'5' ∷ b'5' ∷ b'5' ∷ b'0' ∷ []
unfolding decimal
port_text = refl

connect-any_of_example :
    ((connect (false ∷ false ∷ true ∷ [])).0 ≡ true) × ((connect (false ∷ false ∷ true ∷ [])).1 ≤ 5)
connect-any_of_example = connect-any_of (false ∷ false ∷ true ∷ [])
