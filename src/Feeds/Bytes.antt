-- ===== src/Feeds/Bytes.antt =====
-- The round trip of `CursorCodec._b64` and `_unb64` (apps/api/app/feeds/cursor.py).
use microlens_recsys_mvp.Prelude.{
  ℕ, ◌+◌, ◌*◌, ◌/◌, ◌%◌, ◌<◌, true, false, ◌≡◌, ◌≢◌, refl, sym, ap, ◌∙◌, inl, inr, some, List, [],
  ◌∷◌, All, if◌then◌else◌, Option-cases, value_error, ok, err, arith,
}
use mathlib.Core.Path.{ap₂}
use microlens_recsys_mvp.Feeds.Base64.{
  digit, sextet, b64, two_chars, three_chars, four_chars, b64decode, list_eq, is_empty, unb64,
}

abbrev pub IsByte : ℕ → Type 0
IsByte n = n < 256

sextet-digit : (n : ℕ) → n < 64 → sextet (digit n) ≡ some n
unfolding sextet digit
sextet-digit n h = ground arith

digit-ne-dot : (n : ℕ) → n < 64 → digit n ≢ 46
unfolding digit
digit-ne-dot n h = ground arith

-- The digits of the groups decode to the bytes that they were made of.
one_byte :
    (a : ℕ)
    → IsByte a
    → two_chars (sextet (digit (a / 4))) (sextet (digit (a % 4 * 16))) ≡ some (a ∷ [])
one_byte a h =
    rw (sextet-digit (a / 4) (omega arith), sextet-digit (a % 4 * 16) (omega arith))
      (ap (λ n. some (n ∷ [])) (omega arith))

two_bytes :
    (a b : ℕ)
    → IsByte a
    → IsByte b
    → three_chars
        (sextet (digit (a / 4)))
        (sextet (digit (a % 4 * 16 + b / 16)))
        (sextet (digit (b % 16 * 4)))
      ≡ some (a ∷ b ∷ [])
two_bytes a b ha hb =
    rw
      (
        sextet-digit (a / 4) (omega arith),
        sextet-digit (a % 4 * 16 + b / 16) (omega arith),
        sextet-digit (b % 16 * 4) (omega arith),
      )
      (ap₂ (λ m n. some (m ∷ n ∷ [])) (omega arith) (omega arith))

three_bytes :
    (a b c : ℕ)
    → IsByte a
    → IsByte b
    → IsByte c
    → four_chars
        (sextet (digit (a / 4)))
        (sextet (digit (a % 4 * 16 + b / 16)))
        (sextet (digit (b % 16 * 4 + c / 64)))
        (sextet (digit (c % 64)))
      ≡ some (a ∷ b ∷ c ∷ [])
three_bytes a b c ha hb hc =
    rw
      (
        sextet-digit (a / 4) (omega arith),
        sextet-digit (a % 4 * 16 + b / 16) (omega arith),
        sextet-digit (b % 16 * 4 + c / 64) (omega arith),
        sextet-digit (c % 64) (omega arith),
      )
      (bytes (omega arith) (omega arith) (omega arith))
  where
    bytes : {p q r : ℕ} → p ≡ a → q ≡ b → r ≡ c → some (p ∷ q ∷ r ∷ []) ≡ some (a ∷ b ∷ c ∷ [])
    bytes e f g = cc

pub b64decode-b64 : (bs : List ℕ) → All IsByte bs → b64decode (b64 bs) ≡ some bs
unfolding b64decode b64
b64decode-b64 [] h = refl
b64decode-b64 (a ∷ []) h = one_byte a h.0
b64decode-b64 (a ∷ (b ∷ [])) h = two_bytes a b h.0 h.1.0
b64decode-b64 (a ∷ (b ∷ (c ∷ rest))) h =
    rw (three_bytes a b c h.0 h.1.0 h.1.1.0, b64decode-b64 rest h.1.1.1) refl

abbrev pub NoDot : List ℕ → Type 0
NoDot = All (λ c. c ≢ 46)

pub b64-NoDot : (bs : List ℕ) → All IsByte bs → NoDot (b64 bs)
unfolding b64
b64-NoDot [] h = tt
b64-NoDot (a ∷ []) h =
    (digit-ne-dot (a / 4) (omega arith), (digit-ne-dot (a % 4 * 16) (omega arith), tt))
b64-NoDot (a ∷ (b ∷ [])) h = (
  digit-ne-dot (a / 4) (omega arith),
  (digit-ne-dot (a % 4 * 16 + b / 16) (omega arith), (digit-ne-dot (b % 16 * 4) (omega arith), tt)),
)
b64-NoDot (a ∷ (b ∷ (c ∷ rest))) h = (
  digit-ne-dot (a / 4) (omega arith),
  (
    digit-ne-dot (a % 4 * 16 + b / 16) (omega arith),
    (
      digit-ne-dot (b % 16 * 4 + c / 64) (omega arith),
      (digit-ne-dot (c % 64) (omega arith), b64-NoDot rest h.1.1.1),
    ),
  ),
)

pub list_eq_refl : (xs : List ℕ) → list_eq xs xs ≡ true
unfolding list_eq
list_eq_refl [] = refl
list_eq_refl (x ∷ xs) = ground (arith, list_eq_refl xs)

pub list_eq→eq : (xs ys : List ℕ) → list_eq xs ys ≡ true → xs ≡ ys
unfolding list_eq
list_eq→eq [] [] h = refl
list_eq→eq [] (y ∷ ys) h = absurd (cc)
list_eq→eq (x ∷ xs) [] h = absurd (cc)
list_eq→eq (x ∷ xs) (y ∷ ys) h = ground (arith, list_eq→eq xs ys)

-- Bytes that are not empty come back.
pub unb64-b64 : (bs : List ℕ) → All IsByte bs → is_empty bs ≡ false → unb64 (b64 bs) ≡ ok bs
unfolding unb64
unb64-b64 bs h e = rw (still bs e, b64decode-b64 bs h) (rw (list_eq_refl (b64 bs)) refl)
  where
    still : (xs : List ℕ) → is_empty xs ≡ false → is_empty (b64 xs) ≡ false
    still [] e = cc
    still (a ∷ []) e = refl
    still (a ∷ (b ∷ [])) e = refl
    still (a ∷ (b ∷ (c ∷ rest))) e = refl

-- A text that is read is the one that its bytes are written as.
pub b64-unb64 : (text bs : List ℕ) → unb64 text ≡ ok bs → b64 bs ≡ text
unfolding unb64
b64-unb64 text bs h =
    let full : is_empty text ≡ false = ground arith in
    elim (Option-cases (b64decode text)) [
      | inl none_read ↦ absurd (ground arith)
      | inr (read, e) ↦
          let h1 : (if list_eq (b64 read) text
                then ok read
                else err (value_error "base64 value is not canonical"))
              ≡ ok bs =
            rw (full, e) at h in
          let same : list_eq (b64 read) text ≡ true = ground arith in
          let bytes : read ≡ bs = ground arith in
          ap b64 (sym bytes) ∙ list_eq→eq (b64 read) text same
    ]
