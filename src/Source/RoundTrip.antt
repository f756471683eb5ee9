-- ===== src/Source/RoundTrip.antt =====
-- config/models.go: DecodeSourceString returns what EncodeToString was given.
use Prim.Native.String.{◌∷◌ as ◌∷ᵗ◌, [] as end}
use Prim.Native.Char.{Char, code}
use func.Prelude.{
  ℕ, zero, suc, ◌+◌, ◌*◌, ◌-◌, ◌/◌, ◌%◌, ◌^◌, ◌<◌, String, ◌≡◌, refl, sym, ap, subst, ◌∙◌, Bool,
  true, false, ◌&&◌, not, List, [], ◌∷◌, ok, ◌>>=◌, >>=-eq-ok, arith, ltb, leb, eqb, ◌==◌,
  Bool-cases, inl, inr,
}
use func.Validation.{ℤ, pos, negsuc}
use func.Source.{
  SourceInfo, append, nth_char, hex_digit, hex_from, format_hex, encode_to_string, split_from,
  lower, digit_value, parse_digits, parse_uint, parse_int, signed, decode_parts,
  decode_source_string,
}

append_assoc : (s t u : String) → append (append s t) u ≡ append s (append t u)
unfolding append
append_assoc end t u = refl
append_assoc (c ∷ᵗ s) t u = ap (λ x. c ∷ᵗ x) (append_assoc s t u)

-- The text has no colon.
unfoldable pub no_colon : String → Bool
no_colon end = true
no_colon (c ∷ᵗ s) = not (eqb (code c) b':') && no_colon s

no_colon-append :
    (s t : String) → no_colon s ≡ true → no_colon t ≡ true → no_colon (append s t) ≡ true
unfolding no_colon append
no_colon-append end t h h' = h'
no_colon-append (c ∷ᵗ s) t h h' = ground (arith, no_colon-append s t)

append-end : (s : String) → append s "" ≡ s
unfolding append
append-end end = refl
append-end (c ∷ᵗ s) = ap (λ x. c ∷ᵗ x) (append-end s)

split_last : (part s : String) → no_colon s ≡ true → split_from part s ≡ append part s ∷ []
unfolding split_from no_colon append
split_last part end h = ap (λ x. x ∷ []) (sym (append-end part))
split_last part (c ∷ᵗ s) h =
    let rest = split_last (append part (c ∷ᵗ end)) s (ground arith) in
    let e = append_assoc part (c ∷ᵗ end) s in
    let open_part : eqb (code c) b':' ≡ false = ground arith in
    rw open_part (rest ∙ ap (λ x. x ∷ []) e)

split_at_colon :
    (part s t : String)
    → no_colon s ≡ true
    → split_from part (append s (append ":" t)) ≡ append part s ∷ split_from "" t
unfolding split_from no_colon append
split_at_colon part end t h = ap (λ x. x ∷ split_from "" t) (sym (append-end part))
split_at_colon part (c ∷ᵗ s) t h =
    let rest = split_at_colon (append part (c ∷ᵗ end)) s t (ground arith) in
    let e = append_assoc part (c ∷ᵗ end) s in
    let open_part : eqb (code c) b':' ≡ false = ground arith in
    rw open_part (rest ∙ ap (λ x. x ∷ split_from "" t) e)

-- The characters are digits in base 16, from the value `k` on.
valued : ℕ → String → Bool
valued k end = true
valued k (c ∷ᵗ s) = eqb (digit_value (code c)) k && valued (suc k) s

size : String → ℕ
size end = 0
size (c ∷ᵗ s) = suc (size s)

nth_digit :
    (k : ℕ) (s : String) (n : ℕ)
    → valued k s ≡ true
    → n < size s
    → (c : Char) × (nth_char s n ≡ c ∷ᵗ end) × (digit_value (code c) ≡ k + n)
unfolding valued size nth_char
nth_digit k end n h l = absurd (omega arith)
nth_digit k (c ∷ᵗ s) zero h l = (c, refl, ground arith)
nth_digit k (c ∷ᵗ s) (suc n) h l =
    let (d, e, v) = nth_digit (suc k) s n (ground arith) (omega arith) in (d, e, omega (arith, v))

digit : (n : ℕ) → n < 16 → (c : Char) × (hex_digit n ≡ c ∷ᵗ end) × (digit_value (code c) ≡ n)
unfolding hex_digit valued size digit_value lower
digit n l = let (c, e, v) = nth_digit 0 "0123456789abcdef" n refl l in (c, e, omega (arith, v))

parse_digits-digit :
    (n d : ℕ) (text : String)
    → d < 16
    → n * 16 + d < 2 ^ 32
    → parse_digits n (append (hex_digit d) text) ≡ parse_digits (n * 16 + d) text
unfolding parse_digits append
parse_digits-digit n d text l fits =
    let (c, e, v) = digit d l in
    let small : leb 16 (digit_value (code c)) ≡ false = ground (arith, v, l) in
    let low : ltb (2 ^ 32 - 1) (n * 16 + digit_value (code c)) ≡ false =
      ground (arith, v, l, fits) in
    rw e (rw (small, low) (ap (λ x. parse_digits (n * 16 + x) text) v))

-- The digits of a number are read back, whatever the number of digits that is allowed for.
parse_digits-hex :
    (fuel n : ℕ) (text : String)
    → n < 16 ^ fuel
    → n < 2 ^ 32
    → parse_digits 0 (hex_from fuel n text) ≡ parse_digits n text
unfolding hex_from
parse_digits-hex zero n text l fits = let e : n ≡ 0 = omega arith in rw e refl
parse_digits-hex (suc fuel) n text l fits = elim (Bool-cases (ltb n 16)) [
  | inl small ↦ rw small (
      parse_digits-digit 0 n text (ground (arith, small)) (omega arith)
      ∙ ap (λ m. parse_digits m text) (omega arith))
  | inr large ↦ rw large (
      parse_digits-hex fuel (n / 16) (append (hex_digit (n % 16)) text) (less fuel n l)
        (omega arith)
      ∙ parse_digits-digit (n / 16) (n % 16) text (omega arith) (omega arith)
      ∙ ap (λ m. parse_digits m text) (omega arith))
]
  where
    less : (fuel n : ℕ) → n < 16 ^ suc fuel → n / 16 < 16 ^ fuel
    less fuel n h = omega arith

-- The text begins with a digit.
abbrev Starts : String → Type 0
Starts end = ⊥
Starts (c ∷ᵗ s) = digit_value (code c) < 16

digit-Starts : (n : ℕ) (text : String) → n < 16 → Starts (append (hex_digit n) text)
unfolding append
digit-Starts n text l = let (c, e, v) = digit n l in rw e (omega (arith, v))

hex_from-Starts : (fuel n : ℕ) (text : String) → Starts text → Starts (hex_from fuel n text)
unfolding hex_from
hex_from-Starts zero n text h = h
hex_from-Starts (suc fuel) n text h = elim (Bool-cases (ltb n 16)) [
  | inl small ↦ rw small (digit-Starts n text (ground (arith, small)))
  | inr large ↦
      rw large (hex_from-Starts fuel (n / 16) _ (digit-Starts (n % 16) text (omega arith)))
]

hex-Starts : (fuel n : ℕ) → Starts (hex_from (suc fuel) n "")
unfolding hex_from
hex-Starts fuel n = elim (Bool-cases (ltb n 16)) [
  | inl small ↦ rw small (digit-Starts n "" (ground (arith, small)))
  | inr large ↦ rw large (hex_from-Starts fuel (n / 16) _ (digit-Starts (n % 16) "" (omega arith)))
]

-- A digit is none of the characters that are no digits.
no_digit : (c k : ℕ) → digit_value k ≡ 16 → digit_value c < 16 → eqb c k ≡ false
no_digit c k e l = elim (Bool-cases (eqb c k)) [
  | inl same ↦
      let is : c ≡ k = ground arith in let v = ap digit_value is in absurd (omega (arith, v, e, l))
  | inr other ↦ other
]

digit-no_colon : (n : ℕ) → n < 16 → no_colon (hex_digit n) ≡ true
unfolding no_colon digit_value lower
digit-no_colon n l =
    let (c, e, v) = digit n l in
    let h = no_digit (code c) b':' refl (omega (arith, v)) in rw (e, no_colon) (rw h refl)

hex_from-no_colon :
    (fuel n : ℕ) (text : String) → no_colon text ≡ true → no_colon (hex_from fuel n text) ≡ true
unfolding hex_from
hex_from-no_colon zero n text h = h
hex_from-no_colon (suc fuel) n text h = elim (Bool-cases (ltb n 16)) [
  | inl small ↦
      rw small (no_colon-append (hex_digit n) text (digit-no_colon n (ground (arith, small))) h)
  | inr large ↦ rw large (
      hex_from-no_colon fuel (n / 16) _
        (no_colon-append (hex_digit (n % 16)) text (digit-no_colon (n % 16) (omega arith)) h))
]

format_hex-no_colon : (l : ℤ) → no_colon (format_hex l) ≡ true
unfolding format_hex no_colon
format_hex-no_colon (pos n) = hex_from-no_colon 16 n "" refl
format_hex-no_colon (negsuc n) =
    no_colon-append "-" (hex_from 16 (suc n) "") refl (hex_from-no_colon 16 (suc n) "" refl)

-- The numbers of 32 bits.
abbrev pub IsInt32 : ℤ → Type 0
IsInt32 (pos n) = n < 2 ^ 31
IsInt32 (negsuc n) = n < 2 ^ 31

parse_uint-hex : (n : ℕ) → n < 2 ^ 32 → parse_uint (hex_from 16 n "") ≡ ok n
unfolding parse_uint parse_digits
parse_uint-hex n l =
    go (hex_from 16 n "") (hex-Starts 15 n) (parse_digits-hex 16 n "" (omega arith) l)
  where
    go : (s : String) → Starts s → parse_digits 0 s ≡ ok n → parse_uint s ≡ ok n
    go end h e = absurd h
    go (c ∷ᵗ s) h e = e

parse_int-unsigned : (s : String) → Starts s → parse_int s ≡ (parse_uint s >>= signed false)
unfolding parse_int digit_value lower
parse_int-unsigned end h = absurd h
parse_int-unsigned (c ∷ᵗ s) h =
    let minus = no_digit (code c) b'-' refl h in
    let plus = no_digit (code c) b'+' refl h in rw (minus, plus) refl

signed-pos : (n : ℕ) → n < 2 ^ 31 → signed false n ≡ ok (pos n)
unfolding signed
signed-pos n l = ground (arith, l)

signed-negsuc : (n : ℕ) → n < 2 ^ 31 → signed true (suc n) ≡ ok (negsuc n)
unfolding signed
signed-negsuc n l = let fits : ltb (2 ^ 31) (suc n) ≡ false = ground (arith, l) in rw fits refl

parse_int-format_hex : (l : ℤ) → IsInt32 l → parse_int (format_hex l) ≡ ok l
unfolding format_hex parse_int append
parse_int-format_hex (pos n) l =
    parse_int-unsigned _ (hex-Starts 15 n) ∙ rw (parse_uint-hex n (omega arith)) (signed-pos n l)
parse_int-format_hex (negsuc n) l = rw (parse_uint-hex (suc n) (omega arith)) (signed-negsuc n l)

-- The source information of an archive whose length fits 32 bits, whose checksum and key are not empty
-- and have no colon, is what decoding its encoded text returns.
pub decode-encode :
    (s : SourceInfo)
    → IsInt32 s.len
    → no_colon s.md5 ≡ true
    → no_colon s.key ≡ true
    → (s.md5 == "") ≡ false
    → (s.key == "") ≡ false
    → decode_source_string (encode_to_string s) ≡ ok s
unfolding decode_source_string encode_to_string append decode_parts
decode-encode s fits md5_colon key_colon md5_set key_set =
    ap decode_parts (
      split_at_colon "" (format_hex s.len) (append s.md5 (append ":" s.key))
        (format_hex-no_colon s.len)
      ∙ ap (λ parts. format_hex s.len ∷ parts)
          (split_at_colon "" s.md5 s.key md5_colon
            ∙ ap (λ parts. s.md5 ∷ parts) (split_last "" s.key key_colon)))
    ∙ rw (parse_int-format_hex s.len fits, md5_set, key_set) refl

IsInt32-pos : (n : ℕ) (l : ℤ) → n < 2 ^ 31 → pos n ≡ l → IsInt32 l
IsInt32-pos n (pos m) h e = let same : n ≡ m = cc in omega arith
IsInt32-pos n (negsuc m) h e = cc

signed-IsInt32 : (negative : Bool) (n : ℕ) (l : ℤ) → signed negative n ≡ ok l → IsInt32 l
unfolding signed
signed-IsInt32 true zero l h = IsInt32-pos 0 l (omega arith) cc
signed-IsInt32 true (suc n) l h = elim (Bool-cases (ltb (2 ^ 31) (suc n))) [
  | inl large ↦ cc (rw large at h)
  | inr fits ↦
      let e = rw fits at h in let is : negsuc n ≡ l = cc in subst IsInt32 is (ground (arith, fits))
]
signed-IsInt32 false n l h = elim (Bool-cases (leb (2 ^ 31) n)) [
  | inl large ↦ cc (rw large at h)
  | inr fits ↦ let e = rw fits at h in IsInt32-pos n l (ground (arith, fits)) cc
]

parse_int-IsInt32 : (s : String) (l : ℤ) → parse_int s ≡ ok l → IsInt32 l
unfolding parse_int
parse_int-IsInt32 end l h = cc
parse_int-IsInt32 (c ∷ᵗ s) l h = elim (Bool-cases (eqb (code c) b'-')) [
  | inl minus ↦
      let (n, parsed, e) = >>=-eq-ok (parse_uint s) _ (rw minus at h) in signed-IsInt32 true n l e
  | inr other ↦ elim (Bool-cases (eqb (code c) b'+')) [
    | inl plus ↦
        let (n, parsed, e) = >>=-eq-ok (parse_uint s) _ (rw (other, plus) at h) in
        signed-IsInt32 false n l e
    | inr digits ↦
        let (n, parsed, e) = >>=-eq-ok (parse_uint (c ∷ᵗ s)) _ (rw (other, digits) at h) in
        signed-IsInt32 false n l e
  ]
]

decode_parts-valid :
    (parts : List String) (s : SourceInfo)
    → decode_parts parts ≡ ok s
    → IsInt32 s.len × ((s.md5 == "") ≡ false) × ((s.key == "") ≡ false)
unfolding decode_parts
decode_parts-valid [] s h = cc
decode_parts-valid (a ∷ []) s h = cc
decode_parts-valid (a ∷ b ∷ []) s h = cc
decode_parts-valid (a ∷ b ∷ c ∷ d ∷ parts) s h = cc
decode_parts-valid (a ∷ b ∷ c ∷ []) s h =
    let (l, parsed, e) = >>=-eq-ok (parse_int a) _ h in
    let fits = parse_int-IsInt32 a l parsed in
    let is : (l ≡ s.len) × (b ≡ s.md5) × (c ≡ s.key) × ((b == "") ≡ false) × ((c == "") ≡ false) =
      ground arith in
    (
      subst IsInt32 is.0 fits,
      subst (λ x. (x == "") ≡ false) is.1 is.3,
      subst (λ x. (x == "") ≡ false) is.2 is.4,
    )

-- What decoding accepts has a length of 32 bits, a checksum and a key, whatever the text: nothing wraps
-- around.
pub decode_source_string-IsInt32 :
    (text : String) (s : SourceInfo)
    → decode_source_string text ≡ ok s
    → IsInt32 s.len × ((s.md5 == "") ≡ false) × ((s.key == "") ≡ false)
unfolding decode_source_string
decode_source_string-IsInt32 text s h = decode_parts-valid (split_from "" text) s h
