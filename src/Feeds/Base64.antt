-- ===== src/Feeds/Base64.antt =====
-- `CursorCodec._b64` and `_unb64` (apps/api/app/feeds/cursor.py), with the URL-safe base64 of
-- Python's library. A text is the list of its code points, and bytes are numbers below 256.
use microlens_recsys_mvp.Prelude.{
  ℕ, ◌+◌, ◌*◌, ◌/◌, ◌%◌, Bool, true, false, ◌&&◌, Option, none, some, List, [], ◌∷◌, ◌++◌, ◌==◌,
  ◌-◌, ltb, leb, if◌then◌else◌, value_error, Result, ok, err, ◌>>=◌, require,
}

-- The character of a sextet.
unfoldable pub digit : ℕ → ℕ
digit n =
    if ltb n 26
    then n + 65
    else if ltb n 52
    then n + 71
    else if ltb n 62
    then n - 4
    else if n == 62
    then 45
    else 95

-- The sextet of a character; "+" and "/" are read too.
unfoldable pub sextet : ℕ → Option ℕ
sextet c =
    if leb 65 c && leb c 90
    then some (c - 65)
    else if leb 97 c && leb c 122
    then some (c - 71)
    else if leb 48 c && leb c 57
    then some (c + 4)
    else if c == 45
    then some 62
    else if c == 43
    then some 62
    else if c == 95
    then some 63
    else if c == 47
    then some 63
    else none

-- `_b64`: the padding is cut off.
unfoldable pub b64 : List ℕ → List ℕ
unfolding digit
b64 [] = []
b64 (a ∷ []) = digit (a / 4) ∷ digit (a % 4 * 16) ∷ []
b64 (a ∷ (b ∷ [])) = digit (a / 4) ∷ digit (a % 4 * 16 + b / 16) ∷ digit (b % 16 * 4) ∷ []
b64 (a ∷ (b ∷ (c ∷ rest))) =
    digit (a / 4)
    ∷ digit (a % 4 * 16 + b / 16)
    ∷ digit (b % 16 * 4 + c / 64)
    ∷ digit (c % 64)
    ∷ b64 rest

abbrev pub append_bytes : List ℕ → Option (List ℕ) → Option (List ℕ)
append_bytes bytes none = none
append_bytes bytes (some rest) = some (bytes ++ rest)

abbrev pub two_chars : Option ℕ → Option ℕ → Option (List ℕ)
two_chars (some p) (some q) = some ((p * 4 + q / 16) ∷ [])
two_chars _ _ = none

abbrev pub three_chars : Option ℕ → Option ℕ → Option ℕ → Option (List ℕ)
three_chars (some p) (some q) (some r) = some ((p * 4 + q / 16) ∷ (q % 16 * 16 + r / 4) ∷ [])
three_chars _ _ _ = none

abbrev pub four_chars : Option ℕ → Option ℕ → Option ℕ → Option ℕ → Option (List ℕ)
four_chars (some p) (some q) (some r) (some s) =
    some ((p * 4 + q / 16) ∷ (q % 16 * 16 + r / 4) ∷ (r % 4 * 64 + s) ∷ [])
four_chars _ _ _ _ = none

abbrev pub join_bytes : Option (List ℕ) → Option (List ℕ) → Option (List ℕ)
join_bytes none rest = none
join_bytes (some bytes) rest = append_bytes bytes rest

-- `base64.b64decode` of the text with its padding; `none` stands for `binascii.Error`.
unfoldable pub b64decode : List ℕ → Option (List ℕ)
unfolding sextet
b64decode [] = some []
b64decode (a ∷ []) = none
b64decode (a ∷ (b ∷ [])) = two_chars (sextet a) (sextet b)
b64decode (a ∷ (b ∷ (c ∷ []))) = three_chars (sextet a) (sextet b) (sextet c)
b64decode (a ∷ (b ∷ (c ∷ (d ∷ rest)))) =
    join_bytes (four_chars (sextet a) (sextet b) (sextet c) (sextet d)) (b64decode rest)

unfoldable pub list_eq : List ℕ → List ℕ → Bool
list_eq [] [] = true
list_eq (a ∷ as_) (b ∷ bs) = a == b && list_eq as_ bs
list_eq _ _ = false

abbrev pub is_empty : List ℕ → Bool
is_empty [] = true
is_empty (a ∷ rest) = false

-- `_unb64`
unfoldable pub unb64 : List ℕ → Result (List ℕ)
unfolding b64 b64decode list_eq
unb64 text =
    if is_empty text
    then err (value_error "empty base64 value")
    else require (b64decode text) (value_error "invalid base64 value") >>= λ decoded.
        if list_eq (b64 decoded) text
        then ok decoded
        else err (value_error "base64 value is not canonical")
