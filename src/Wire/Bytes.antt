-- ===== src/Wire/Bytes.antt =====
-- Memory as the wire structs use it: bytes below 256, a 32-bit `int` as its bit pattern, stored
-- little-endian, a fixed `char` array and a C string. A read past the end of the block is `none`.
use socket_message.Prelude.{
  ℕ, zero, suc, ◌+◌, ◌*◌, ◌/◌, ◌%◌, ◌^◌, ◌≤◌, ◌<◌, ◌≡◌, ◌≢◌, refl, ap, Bool, Option, none, some,
  List, [], ◌∷◌, ◌++◌, arith, leb, ◌==◌, if◌then◌else◌, ◌>>=◌, length, take, drop, All,
  length-append, length-drop,
}

-- `sizeof(int)`, `sizeof(DataHead)` and the width of the name and password arrays.
abbrev pub int_size : ℕ
int_size = 4

abbrev pub data_head_size : ℕ
data_head_size = 8

abbrev pub name_size : ℕ
name_size = 32

abbrev pub IsByte : ℕ → Type 0
IsByte b = b < 256

abbrev pub IsInt : ℕ → Type 0
IsInt w = w < 2 ^ 32

-- The bit patterns of the negative values.
abbrev pub is_neg : ℕ → Bool
is_neg w = leb (2 ^ 31) w

unfoldable pub le32 : ℕ → List ℕ
le32 w = (w % 256) ∷ (w / 256 % 256) ∷ (w / 65536 % 256) ∷ (w / 16777216 % 256) ∷ []

unfoldable pub of_le32 : List ℕ → Option ℕ
of_le32 (a ∷ b ∷ c ∷ d ∷ rest) = some (a + 256 * b + 65536 * c + 16777216 * d)
of_le32 _ = none

-- `memcpy(&x, data + offset, sizeof(int))`
unfoldable pub int_at : List ℕ → ℕ → Option ℕ
unfolding of_le32
int_at buf offset = of_le32 (drop offset buf)

unfoldable pub take_exactly : ℕ → List ℕ → Option (List ℕ)
take_exactly zero bytes = some []
take_exactly (suc n) [] = none
take_exactly (suc n) (b ∷ bytes) = do rest ← take_exactly n bytes; some (b ∷ rest)

-- `memcpy(x, data + offset, n)`
unfoldable pub bytes_at : List ℕ → ℕ → ℕ → Option (List ℕ)
bytes_at buf offset n = take_exactly n (drop offset buf)

-- `*(data + offset)`
unfoldable pub char_at : List ℕ → ℕ → Option ℕ
char_at buf offset = elim (drop offset buf) [ [] ↦ none | b ∷ _ ↦ some b ]

-- `std::string(p)`, `append(p)`: the bytes before the first zero byte.
unfoldable pub c_str : List ℕ → Option (List ℕ)
c_str [] = none
c_str (b ∷ bytes) =
    let rest = c_str bytes in if b == 0 then some [] else (do s ← rest; some (b ∷ s))

-- `memcpy(array, s.c_str(), s.size() + 1)` into an array: `none` is a write past its end.
unfoldable pub copy_name : List ℕ → List ℕ → Option (List ℕ)
copy_name array s =
    if leb (length s + 1) (length array) then some (s ++ 0 ∷ drop (length s + 1) array) else none

pub length-le32 : (w : ℕ) → length (le32 w) ≡ 4
unfolding le32
length-le32 w = refl

pub of_le32-le32 : (w : ℕ) (rest : List ℕ) → IsInt w → of_le32 (le32 w ++ rest) ≡ some w
unfolding of_le32 le32
of_le32-le32 w rest h = ap some (omega arith)

pub take_exactly-append :
    (n : ℕ) (xs rest : List ℕ) → length xs ≡ n → take_exactly n (xs ++ rest) ≡ some xs
unfolding take_exactly
take_exactly-append zero [] rest h = refl
take_exactly-append zero (x ∷ xs) rest h = absurd (omega arith)
take_exactly-append (suc n) [] rest h = absurd (omega arith)
take_exactly-append (suc n) (x ∷ xs) rest h = rw (take_exactly-append n xs rest (omega arith))

pub take_exactly_short : (n : ℕ) (xs : List ℕ) → length xs < n → take_exactly n xs ≡ none
unfolding take_exactly
take_exactly_short zero xs h = absurd (omega arith)
take_exactly_short (suc n) [] h = refl
take_exactly_short (suc n) (x ∷ xs) h = rw (take_exactly_short n xs (omega arith))

pub take_exactly_le : (n : ℕ) (xs : List ℕ) → n ≤ length xs → take_exactly n xs ≡ some (take n xs)
unfolding take_exactly
take_exactly_le zero xs h = refl
take_exactly_le (suc n) [] h = absurd (omega arith)
take_exactly_le (suc n) (x ∷ xs) h = rw (take_exactly_le n xs (omega arith))

pub take_whole : (n : ℕ) (xs : List ℕ) → length xs ≡ n → take_exactly n xs ≡ some xs
unfolding take_exactly
take_whole zero [] h = refl
take_whole zero (x ∷ xs) h = absurd (omega arith)
take_whole (suc n) [] h = absurd (omega arith)
take_whole (suc n) (x ∷ xs) h = rw (take_whole n xs (omega arith))

pub of_le32_short : (xs : List ℕ) → length xs < 4 → of_le32 xs ≡ none
unfolding of_le32
of_le32_short [] h = refl
of_le32_short (a ∷ []) h = refl
of_le32_short (a ∷ b ∷ []) h = refl
of_le32_short (a ∷ b ∷ c ∷ []) h = refl
of_le32_short (a ∷ b ∷ c ∷ d ∷ xs) h = absurd (omega arith)

-- A C string without zero bytes comes back, whatever follows its terminator.
pub c_str-append : (s rest : List ℕ) → All (λ b. b ≢ 0) s → c_str (s ++ 0 ∷ rest) ≡ some s
unfolding c_str
c_str-append [] rest h = refl
c_str-append (b ∷ s) rest h = ground (arith, c_str-append s rest h.1)

pub c_str-copy_name :
    (array s : List ℕ)
    → All (λ b. b ≢ 0) s
    → length s < length array
    → (copied : List ℕ) × (copy_name array s ≡ some copied)
      × (length copied ≡ length array)
      × (c_str copied ≡ some s)
unfolding copy_name
c_str-copy_name array s h fits = (
  s ++ 0 ∷ rest,
  ground arith,
  omega (arith, length-append s (0 ∷ rest), length-drop (length s + 1) array),
  c_str-append s rest h,
)
  where
    rest : List ℕ
    rest = drop (length s + 1) array

-- The bytes of the `int` that a block begins with.
pub le32-of_le32 :
    (xs : List ℕ) (w : ℕ)
    → All IsByte xs
    → of_le32 xs ≡ some w
    → IsInt w × (xs ≡ le32 w ++ drop 4 xs)
unfolding of_le32 le32
le32-of_le32 [] w h e = cc
le32-of_le32 (a ∷ []) w h e = cc
le32-of_le32 (a ∷ b ∷ []) w h e = cc
le32-of_le32 (a ∷ b ∷ c ∷ []) w h e = cc
le32-of_le32 (a ∷ b ∷ c ∷ d ∷ xs) w (ha, (hb, (hc, (hd, _)))) e = ground arith

pub of_le32_total : (xs : List ℕ) → 4 ≤ length xs → (w : ℕ) × (of_le32 xs ≡ some w)
unfolding of_le32
of_le32_total [] h = absurd (omega arith)
of_le32_total (a ∷ []) h = absurd (omega arith)
of_le32_total (a ∷ b ∷ []) h = absurd (omega arith)
of_le32_total (a ∷ b ∷ c ∷ []) h = absurd (omega arith)
of_le32_total (a ∷ b ∷ c ∷ d ∷ xs) h = (_, refl)
