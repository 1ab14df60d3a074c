-- ===== src/Net/Framing.antt =====
-- SocketHead.h and the loop of SocketControl::Client4ReadCallback (the client's
-- ClientReadPackageCallback has the same one): a package is sent behind its size as an `int`.
use socket_message.Prelude.{
  ℕ, zero, suc, ◌+◌, ◌^◌, ◌≤◌, ◌<◌, ◌≡◌, Bool, true, false, Option, none, some, List, [], ◌∷◌, ◌++◌,
  ◌⊎◌, arith, ltb, leb, if◌then◌else◌, length, take, drop, map, concat,
}
use socket_message.Wire.Bytes.{le32, of_le32, int_at, bytes_at, is_neg}
use socket_message.Net.Result.{
  Fault, Result, ok, err, bad_array_length, int_overflow, out_of_buffer, out_of_fuel, ◌>>=◌,
}
pub mod Sound
pub mod Complete

-- `SocketHead::SocketHeadSize`
abbrev pub socket_head_size : ℕ
socket_head_size = 4

-- What SendPackage copies into `sendData`.
unfoldable pub frame : List ℕ → List ℕ
frame body = le32 (length body) ++ body

-- The packages that the loop hands on, and its final `offset`.
pub record Packages : Type 0 where
  pub packages : List (List ℕ)
  pub offset : ℕ

abbrev add_package : List ℕ → Packages → Packages
add_package p r = record r { packages = p ∷ r.packages }

abbrev or_fault {ℓ} : {A : Type ℓ} → Option A → Fault → Result A
or_fault none e = err e
or_fault (some a) e = ok a

-- `memcpy(package, data + SocketHead::SocketHeadSize + offset, packageCount)`
unfoldable pub package_at : List ℕ → ℕ → ℕ → Result (List ℕ)
package_at bytes offset count =
    or_fault (bytes_at bytes (offset + socket_head_size) count) out_of_buffer

-- The body of the loop once the head is read, up to the next round. Both tests of the code are on
-- `int`s: a negative count passes the first, and `new` throws.
unfoldable pub package_end : ℕ → ℕ → ℕ → Result (Option ℕ)
package_end size offset count =
    if is_neg count
    then err bad_array_length
    else (if leb (2 ^ 31) (offset + socket_head_size + count)
        then err int_overflow
        else (if ltb size (offset + socket_head_size + count)
            then ok none
            else ok (some (offset + socket_head_size + count))))

unfoldable pub read_loop : ℕ → List ℕ → ℕ → Result Packages
read_loop zero bytes offset = err out_of_fuel
read_loop (suc fuel) bytes offset =
    let round : Result Packages = (do
      count ← or_fault (int_at bytes offset) out_of_buffer
      end ← package_end (length bytes) offset count
      elim end [
        | none ↦ ok (record { packages = []; offset = offset })
        | some next ↦ package_at bytes offset count >>= λ body.
            read_loop fuel bytes next >>= λ rest. ok (add_package body rest)
      ]) in
    if ltb (socket_head_size + offset) (length bytes)
    then round
    else ok (record { packages = []; offset = offset })

-- Client4ReadCallback on the bytes in the buffer. Each round takes a head at least.
unfoldable pub read_packages : List ℕ → Result Packages
read_packages bytes = read_loop (suc (length bytes)) bytes 0

-- The reader waits for more: at most a head is there, which may be that of an empty package, or the head of
-- a package that is not complete.
abbrev pub IsWaiting : List ℕ → Type 0
IsWaiting bytes =
    (length bytes ≤ socket_head_size)
    ⊎ ((count : ℕ) × (of_le32 bytes ≡ some count)
        × (count < 2 ^ 31)
        × (length bytes < socket_head_size + count))
