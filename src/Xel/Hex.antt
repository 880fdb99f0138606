-- ===== src/Xel/Hex.antt =====
-- xel's StrToHex and HexToStr, on bytes.
use pp.Prelude.{◌≡◌, ◌<◌, ◌*◌, [], ◌∷◌, Bytes, length}

abbrev pub AreBytes : Bytes → Type 0
AreBytes [] = Unit {0}
AreBytes (b ∷ bs) = (b < 256) × AreBytes bs

pub record Hex : Type 0 where
  pub str_to_hex : Bytes → Bytes
  pub hex_to_str : Bytes → Bytes
  pub hex_to_str-str_to_hex : (bs : Bytes) → AreBytes bs → hex_to_str (str_to_hex bs) ≡ bs
  pub length-str_to_hex : (bs : Bytes) → length (str_to_hex bs) ≡ 2 * length bs
