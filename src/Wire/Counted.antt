-- ===== src/Wire/Counted.antt =====
-- DataType.h: what S2CUserList, S2CGroupList and DataMsgList share, a block of a head, a count and
-- the entries one after another, of whose count UnSerialize reads one signed byte.
use socket_message.Prelude.{
  ℕ, ◌+◌, ◌%◌, ◌≤◌, ◌<◌, ◌≡◌, refl, some, List, ◌++◌, arith, ltb, if◌then◌else◌, length, drop,
}
use socket_message.Wire.Bytes.{IsInt, le32, char_at}
use socket_message.Wire.Login.{DataHead, head_bytes, head_of, head_of-head_bytes}

-- `int count = *(data + sizeof(DataHead))` reads one signed byte; the loop does not run on a
-- negative count.
unfoldable pub count_of : ℕ → ℕ
count_of b = if ltb b 128 then b else 0

-- What is read back of `n` entries: the count's low byte, and nothing where its sign bit is set.
unfoldable pub counted : ℕ → ℕ
unfolding count_of
counted n = count_of (n % 256)

pub counted-le : (n : ℕ) → counted n ≤ n
unfolding counted
counted-le n = ground arith

pub counted_small : (n : ℕ) → n < 128 → counted n ≡ n
unfolding counted
counted_small n h = ground arith

unfoldable pub list_block : DataHead → ℕ → List ℕ → List ℕ
list_block h n body = head_bytes h ++ (le32 n ++ body)

module _ (h : DataHead) (n : ℕ) (body : List ℕ) where
  pub head_of-list_block :
      IsInt h.data_size → IsInt h.data_type → head_of (list_block h n body) ≡ some h
  unfolding list_block
  head_of-list_block hs ht = head_of-head_bytes h (le32 n ++ body) hs ht

  pub char_at-list_block : char_at (list_block h n body) 8 ≡ some (n % 256)
  unfolding list_block char_at head_bytes
  char_at-list_block = refl

  pub drop-list_block : drop 12 (list_block h n body) ≡ body
  unfolding list_block head_bytes
  drop-list_block = refl

  pub append-list_block :
      (rest : List ℕ) → list_block h n body ++ rest ≡ list_block h n (body ++ rest)
  unfolding list_block head_bytes
  append-list_block rest = refl

  pub length-list_block : length (list_block h n body) ≡ 12 + length body
  unfolding list_block head_bytes
  length-list_block = omega arith
