-- ===== src/Outbound/Hex.antt =====
-- `hex.EncodeToString` and `hex.DecodeString` over bytes, and `isLowerHexDigest` of
-- pkg/connector/tumblrdb/outbound.go.
use tumblr_dms.Prelude.{
  ℕ, ◌+◌, ◌-◌, ◌*◌, ◌/◌, ◌%◌, ◌<◌, ◌≡◌, refl, Bool, ◌&&◌, ◌||◌, List, [], ◌∷◌, Option, none, some,
  String, ltb, leb, ◌==◌, if◌then◌else◌, length, all, All, codes, arith,
}

-- "0123456789abcdef"[n]
abbrev hex_digit : ℕ → ℕ
hex_digit n = if ltb n 10 then 48 + n else 87 + n

unfoldable pub hex_encode : List ℕ → List ℕ
hex_encode [] = []
hex_encode (b ∷ bs) = hex_digit (b / 16) ∷ hex_digit (b % 16) ∷ hex_encode bs

-- The value of a digit; both cases are read.
abbrev from_hex : ℕ → Option ℕ
from_hex c =
    if leb 48 c && leb c 57
    then some (c - 48)
    else if leb 97 c && leb c 102
    then some (c - 87)
    else if leb 65 c && leb c 70
    then some (c - 55)
    else none

abbrev join_digits : Option ℕ → Option ℕ → Option (List ℕ) → Option (List ℕ)
join_digits (some a) (some b) (some rest) = some ((a * 16 + b) ∷ rest)
join_digits _ _ _ = none

unfoldable pub hex_decode : List ℕ → Option (List ℕ)
hex_decode [] = some []
hex_decode (_ ∷ []) = none
hex_decode (a ∷ b ∷ rest) = join_digits (from_hex a) (from_hex b) (hex_decode rest)

-- A digit that `hex.DecodeString` reads and `strings.ToLower` leaves alone.
abbrev is_lower_hex : ℕ → Bool
is_lower_hex c = (leb 48 c && leb c 57) || (leb 97 c && leb c 102)

-- `len(decoded)*2 == length` holds of a decoded text of an even length only.
unfoldable pub is_lower_hex_digest : String → ℕ → Bool
is_lower_hex_digest value n =
    length (codes value) == n && n % 2 == 0 && all is_lower_hex (codes value)

digit_lem : (n : ℕ) → n < 16 → from_hex (hex_digit n) ≡ some n
digit_lem n h = ground arith

-- Decoding undoes encoding, for every list of bytes.
pub hex_decode-hex_encode :
    (bs : List ℕ) → All (λ b. b < 256) bs → hex_decode (hex_encode bs) ≡ some bs
unfolding hex_decode hex_encode
hex_decode-hex_encode [] h = refl
hex_decode-hex_encode (b ∷ bs) (p, h) =
    ground (arith, digit_lem (b / 16), digit_lem (b % 16), hex_decode-hex_encode bs h)

pub length-hex_encode : (bs : List ℕ) → length (hex_encode bs) ≡ 2 * length bs
unfolding hex_encode
length-hex_encode [] = refl
length-hex_encode (b ∷ bs) = omega (arith, length-hex_encode bs)

join_digits-some :
    (x y : Option ℕ) (rest : Option (List ℕ)) (bs : List ℕ)
    → join_digits x y rest ≡ some bs
    → (b : ℕ) × (ds : List ℕ) × (rest ≡ some ds) × (bs ≡ b ∷ ds)
join_digits-some (some a) (some b) (some ds) bs h = (a * 16 + b, ds, refl, ground arith)
join_digits-some (some a) (some b) none bs h = cc
join_digits-some (some a) none rest bs h = cc
join_digits-some none y rest bs h = cc

-- A decoded text is twice as long as its bytes are many.
pub length-hex_decode : (cs bs : List ℕ) → hex_decode cs ≡ some bs → length cs ≡ 2 * length bs
unfolding hex_decode
length-hex_decode [] bs h = ground arith
length-hex_decode (_ ∷ []) bs h = ground arith
length-hex_decode (a ∷ b ∷ rest) bs h =
    let (c, ds, e, same) = join_digits-some (from_hex a) (from_hex b) (hex_decode rest) bs h in
    rw same (omega (arith, length-hex_decode rest ds e))
