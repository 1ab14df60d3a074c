-- ===== src/Server/Database/Stoi.antt =====
-- `std::stoi`, as DBUser.cpp, DBGroup.cpp and DBMsg.cpp use it on the cells of a row.
use socket_message.Prelude.{
  ℕ, ◌+◌, ◌-◌, ◌*◌, ◌%◌, ◌^◌, Bool, ◌&&◌, ◌||◌, Option, none, some, List, [], ◌∷◌, ltb, leb, ◌==◌,
  if◌then◌else◌, ◌>>=◌, ◌>>◌, guard,
}

abbrev is_space : ℕ → Bool
is_space c = (c == 32) || (leb 9 c && leb c 13)

abbrev is_digit : ℕ → Bool
is_digit c = leb 48 c && leb c 57

unfoldable pub skip_spaces : List ℕ → List ℕ
skip_spaces [] = []
skip_spaces (c ∷ cs) = let rest = skip_spaces cs in if is_space c then rest else c ∷ cs

-- The value of the digits in front, behind the value `n` of those before them.
unfoldable pub digits_value : ℕ → List ℕ → ℕ
digits_value n [] = n
digits_value n (c ∷ cs) =
    let rest = digits_value (10 * n + (c - 48)) cs in if is_digit c then rest else n

unfoldable pub unsigned_value : List ℕ → Option ℕ
unsigned_value [] = none
unsigned_value (c ∷ cs) = if is_digit c then some (digits_value 0 (c ∷ cs)) else none

unfoldable pub signed_value : List ℕ → Option ℕ
signed_value [] = none
signed_value (c ∷ cs) =
    if c == 45
    then (do n ← unsigned_value cs; guard (leb n (2 ^ 31)); some ((2 ^ 32 - n) % 2 ^ 32))
    else (do n ← unsigned_value (if c == 43 then cs else c ∷ cs); guard (ltb n (2 ^ 31)); some n)

-- `std::stoi`, which throws on a text with no number in front or one outside `int`.
unfoldable pub stoi : List ℕ → Option ℕ
stoi text = signed_value (skip_spaces text)
