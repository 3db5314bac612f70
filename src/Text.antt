-- ===== src/Text.antt =====
-- Texts of the source as the bytes of their UTF-8, and the functions of `str` that it calls.
use minikv.Prelude.{
  ℕ, zero, suc, ◌*◌, ◌-◌, ◌/◌, ◌%◌, ◌^◌, ltb, arith, ◌++◌, ◌+◌, ◌&&◌, String, Bool, true, false,
  Option, none, some, [], ◌∷◌, drop, ◌≡◌, refl, nat_eq, ◌==◌, leb, if◌then◌else◌,
}
use Prim.Native.String.{[] as empty, ◌∷◌ as ◌then_char◌}
use Prim.Native.Char.{code}
use minikv.Bytes.{Bytes}

-- An ASCII literal.
abbrev pub ascii : String → Bytes
ascii empty = []
ascii (c then_char s) = code c ∷ ascii s

unfoldable pub starts_with : Bytes → Bytes → Bool
starts_with [] text = true
starts_with (p ∷ ps) [] = false
starts_with (p ∷ ps) (c ∷ text) = (p == c) && starts_with ps text

-- `splitn(2, ' ')`, where it gives two parts: what is before the first space, and what follows it.
unfoldable pub split_space : Bytes → Option (Bytes × Bytes)
split_space [] = none
split_space (c ∷ text) =
    let rest = split_space text in
    if c == 32
    then some ([], text)
    else elim rest [ none ↦ none | some parts ↦ some (c ∷ parts.0, parts.1) ]

-- `to_lowercase`, for a comparison with an ASCII text: no character but the capital letters and the
-- Kelvin sign has an ASCII one for its lower case.
unfoldable pub to_lowercase : Bytes → Bytes
unfolding starts_with
to_lowercase [] = []
to_lowercase (c ∷ text) =
    let rest = to_lowercase text in
    if (c == 0xe2) && starts_with (0x84 ∷ 0xaa ∷ []) text
    then 0x6b ∷ drop 2 rest
    else (if leb 65 c && leb c 90 then c + 32 else c) ∷ rest

-- The decimal digits of a number below 10 ^ fuel, before what follows them.
unfoldable pub digits : ℕ → ℕ → Bytes → Bytes
digits zero n rest = rest
digits (suc fuel) n rest =
    let more = digits fuel (n / 10) ((48 + n % 10) ∷ rest) in
    if n / 10 == 0 then (48 + n % 10) ∷ rest else more

-- What `{}` prints of a `u64`, which has at most 20 digits.
abbrev pub decimal : ℕ → Bytes
decimal n = digits 20 n []

-- The digits of `parse::<u64>()`, after those that are read.
unfoldable pub parse_digits : ℕ → Bytes → Option ℕ
parse_digits n [] = some n
parse_digits n (c ∷ text) =
    let rest = parse_digits (n * 10 + (c - 48)) text in
    if leb 48 c && leb c 57 && ltb (n * 10 + (c - 48)) (2 ^ 64) then rest else none

-- `parse::<u64>().ok()`: a plus sign may stand before the digits.
unfoldable pub parse_u64 : Bytes → Option ℕ
unfolding parse_digits
parse_u64 [] = none
parse_u64 (c ∷ text) =
    if c == 43
    then (elim text [ [] ↦ none | d ∷ more ↦ parse_digits 0 (d ∷ more) ])
    else parse_digits 0 (c ∷ text)

pub starts_with-append : (p t : Bytes) → starts_with p (p ++ t) ≡ true
unfolding starts_with
starts_with-append [] t = refl
starts_with-append (c ∷ p) t = ground (arith, starts_with-append p t)

ascii_test : ascii "mkv_" ≡ 0x6d ∷ 0x6b ∷ 0x76 ∷ 0x5f ∷ []
ascii_test = refl

lower_test : to_lowercase (ascii "ApiKey") ≡ ascii "apikey"
unfolding to_lowercase
lower_test = refl

decimal_test : decimal 1203 ≡ ascii "1203"
unfolding digits
decimal_test = refl

parse_u64_test : parse_u64 (ascii "+0120") ≡ some 120
unfolding parse_u64
parse_u64_test = refl
