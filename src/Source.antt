-- ===== src/Source.antt =====
-- config/models.go: the text that describes the source code of a resource.
mod RoundTrip
mod Tests
use Prim.Native.String.{◌∷◌ as ◌∷ᵗ◌, [] as end}
use Prim.Native.Char.{Char, code}
use func.Prelude.{
  ℕ, zero, suc, ◌+◌, ◌*◌, ◌-◌, ◌/◌, ◌%◌, ◌^◌, String, Bool, true, false, ◌&&◌, List, [], ◌∷◌,
  Result, ok, err, panic, ◌>>=◌, ltb, leb, eqb, ◌==◌, if◌then◌else◌,
}
use func.Validation.{ℤ, pos, negsuc}

-- SourceInfo
pub record SourceInfo : Type 0 where
  pub len : ℤ
  pub md5 : String
  pub key : String

pub data SourceError : Type 0 where
  not_three_parts length_syntax length_range md5_not_set key_not_set : SourceError

unfoldable pub append : String → String → String
append end t = t
append (c ∷ᵗ s) t = c ∷ᵗ append s t

-- The text with the digits that strconv and fmt read a digit from.
unfoldable pub nth_char : String → ℕ → String
nth_char end n = end
nth_char (c ∷ᵗ s) zero = c ∷ᵗ end
nth_char (c ∷ᵗ s) (suc n) = nth_char s n

-- The digit of a number below 16.
unfoldable pub hex_digit : ℕ → String
hex_digit = nth_char "0123456789abcdef"

-- The digits of a number in front of a text: a 64-bit integer has 16 at most.
unfoldable pub hex_from : ℕ → ℕ → String → String
hex_from zero n text = text
hex_from (suc fuel) n text =
    let next = hex_from fuel (n / 16) (append (hex_digit (n % 16)) text) in
    if ltb n 16 then append (hex_digit n) text else next

-- `%x` of an int
unfoldable pub format_hex : ℤ → String
format_hex (pos n) = hex_from 16 n ""
format_hex (negsuc n) = append "-" (hex_from 16 (suc n) "")

-- SourceInfo.EncodeToString
unfoldable pub encode_to_string : SourceInfo → String
encode_to_string s = append (format_hex s.len) (append ":" (append s.md5 (append ":" s.key)))

-- strings.Split at ':', with the text of the part that is being read.
unfoldable pub split_from : String → String → List String
split_from part end = part ∷ []
split_from part (c ∷ᵗ s) =
    let closed = part ∷ split_from "" s in
    let open_part = split_from (append part (c ∷ᵗ end)) s in
    if eqb (code c) b':' then closed else open_part

unfoldable pub lower : ℕ → ℕ
lower c = if leb b'A' c && leb c b'Z' then c + 32 else c

-- The value of a digit; 16 or more stands for a character that is none in base 16.
unfoldable pub digit_value : ℕ → ℕ
digit_value c =
    if leb b'0' c && leb c b'9'
    then c - b'0'
    else if leb b'a' (lower c) && leb (lower c) b'z'
    then (lower c - b'a') + 10
    else 16

-- The loop of strconv.ParseUint in base 16 with 32 bits.
unfoldable pub parse_digits : ℕ → String → Result SourceError ℕ
parse_digits n end = ok n
parse_digits n (c ∷ᵗ s) =
    let d = digit_value (code c) in
    let rest = parse_digits (n * 16 + d) s in
    if leb 16 d
    then err length_syntax
    else if ltb (2 ^ 32 - 1) (n * 16 + d)
    then err length_range
    else rest

-- strconv.ParseUint(s, 16, 32)
unfoldable pub parse_uint : String → Result SourceError ℕ
parse_uint end = err length_syntax
parse_uint (c ∷ᵗ s) = parse_digits 0 (c ∷ᵗ s)

-- The number with its sign, within 32 bits.
unfoldable pub signed : Bool → ℕ → Result SourceError ℤ
signed negative n =
    if negative
    then if ltb (2 ^ 31) n then err length_range else ok (negated n)
    else if leb (2 ^ 31) n
    then err length_range
    else ok (pos n)
  where
    negated : ℕ → ℤ
    negated zero = pos zero
    negated (suc m) = negsuc m

-- strconv.ParseInt(s, 16, 32)
unfoldable pub parse_int : String → Result SourceError ℤ
parse_int end = err length_syntax
parse_int (c ∷ᵗ s) =
    if eqb (code c) b'-'
    then parse_uint s >>= signed true
    else if eqb (code c) b'+'
    then parse_uint s >>= signed false
    else parse_uint (c ∷ᵗ s) >>= signed false

-- DecodeSourceString, behind the split.
unfoldable pub decode_parts : List String → Result SourceError SourceInfo
decode_parts (length_part ∷ md5_part ∷ key_part ∷ []) = parse_int length_part >>= λ l.
    if md5_part == ""
    then err md5_not_set
    else if key_part == ""
    then err key_not_set
    else ok (record { len = l; md5 = md5_part; key = key_part })
decode_parts parts = err not_three_parts

-- DecodeSourceString
unfoldable pub decode_source_string : String → Result SourceError SourceInfo
decode_source_string str = decode_parts (split_from "" str)
