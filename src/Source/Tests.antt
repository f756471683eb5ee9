-- ===== src/Source/Tests.antt =====
-- config/models.go: examples.
use func.Source.{
  append, decode_parts, digit_value, format_hex, hex_digit, hex_from, nth_char, parse_digits,
  parse_uint, signed, split_from,
}
use func.Prelude.{◌≡◌, refl, true, false, ok, err, ◌==◌, arith}
use func.Validation.{pos, negsuc}
use func.Source.{SourceInfo, encode_to_string, decode_source_string, length_range, parse_int}
use func.Source.RoundTrip.{no_colon, IsInt32, decode-encode, decode_source_string-IsInt32}

abbrev info : SourceInfo
info = record { len = pos 4660; md5 = "abc="; key = "k1" }

encoded : encode_to_string info ≡ "1234:abc=:k1"
unfolding encode_to_string append format_hex hex_from hex_digit nth_char
encoded = refl

decoded : decode_source_string "1234:abc=:k1" ≡ ok info
unfolding decode_source_string decode_parts split_from parse_int append parse_uint parse_digits
    digit_value signed
decoded = refl

too_large : parse_int "80000000" ≡ err length_range
unfolding parse_int parse_uint parse_digits digit_value signed
too_large = refl

smallest : parse_int "-80000000" ≡ ok (negsuc 2147483647)
unfolding parse_int parse_uint parse_digits digit_value signed
smallest = refl

info-md5 : no_colon info.md5 ≡ true
unfolding no_colon
info-md5 = refl

info-key : no_colon info.key ≡ true
unfolding no_colon
info-key = refl

decode-encode_example : decode_source_string (encode_to_string info) ≡ ok info
decode-encode_example = decode-encode info (omega arith) info-md5 info-key refl refl

decode_source_string-IsInt32_example :
    IsInt32 info.len × ((info.md5 == "") ≡ false) × ((info.key == "") ≡ false)
decode_source_string-IsInt32_example = decode_source_string-IsInt32 "1234:abc=:k1" info decoded
