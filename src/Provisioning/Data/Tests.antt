-- ===== src/Provisioning/Data/Tests.antt =====
-- The provisioning data of concrete nodes.
use backend_client.Topics.{chars}
use backend_client.Base.{ℕ, List, false, ◌≡◌, refl, true, none, some, [], ◌∷◌, arith}
use backend_client.Base.Int.{pos, negsuc}
use backend_client.Base.Exceptions.{ok}
use backend_client.Provisioning.Data.{bytes, text, int, value_eq, int_eq, Entry, append}
use backend_client.Provisioning.Data.Convert.{convert_to_bytes, convert_to_int, int_literal}
use backend_client.Provisioning.Data.Config.{ConfigEntry, read_entry, load}
use backend_client.Provisioning.Data.Loaded.{IsReady, load-lookup-IsReady}
use backend_client.Provisioning.Data.Hex.{
  Spelling, hex_char, hex_words, hex_run, convert_to_bytes-hex,
}

abbrev configured : ConfigEntry
configured = record {
  method = some (int (pos 0));
  encryption_key = some (text (b'0' ∷ b'x' ∷ b'0' ∷ b'f' ∷ []));
  authentication_key = some (text (b'k' ∷ []));
  network_address = some (text (b'0' ∷ b'x' ∷ b'1' ∷ b'0' ∷ []));
  network_channel = some (int (pos 2));
  node_id = none;
  node_role = none;
  user_specific = none;
  factory_key = none;
}

abbrev loaded : Entry
loaded = record {
  method = int (pos 0);
  encryption_key = bytes (15 ∷ []);
  authentication_key = bytes (b'k' ∷ []);
  network_address = some (int (pos 16));
  network_channel = some (int (pos 2));
  node_id = none;
  node_role = none;
  user_specific = none;
  factory_key = none;
}

load_reads : load [] ((text (b'n' ∷ []), configured) ∷ []) ≡ ok ((bytes (b'n' ∷ []), loaded) ∷ [])
unfolding load read_entry convert_to_bytes convert_to_int append
load_reads = refl

load-lookup-IsReady_example : IsReady loaded
load-lookup-IsReady_example =
    load-lookup-IsReady ((text (b'n' ∷ []), configured) ∷ []) (bytes (b'n' ∷ [])) load_reads refl

-- The spellings of the example configuration: 0x08 0X09 0X0A
abbrev lower_x : Spelling
lower_x = record { big_x = false; big_high = true; big_low = true }

abbrev upper_x : Spelling
upper_x = record { big_x = true; big_high = true; big_low = true }

abbrev key_words : List (Spelling × ℕ)
key_words = (upper_x, 9) ∷ (upper_x, 10) ∷ []

convert_to_bytes-hex_example :
    (convert_to_bytes (text (chars "0x08 0X09 0X0A")) ≡ ok (bytes (8 ∷ 9 ∷ 10 ∷ [])))
    × (convert_to_bytes (text (chars "0x090A")) ≡ ok (bytes (9 ∷ 10 ∷ [])))
unfolding hex_words hex_run hex_char
convert_to_bytes-hex_example =
    convert_to_bytes-hex lower_x 8 key_words (omega arith, (omega arith, (omega arith, tt)))

-- -0x1_f, between blanks
literal_reads :
    int_literal (32 ∷ b'-' ∷ b'0' ∷ b'x' ∷ b'1' ∷ b'_' ∷ b'f' ∷ 32 ∷ []) ≡ ok (negsuc 30)
unfolding int_literal
literal_reads = refl
