-- ===== src/Net/Framing/Complete.antt =====
-- A stream of framed packages is taken apart into these packages.
use socket_message.Prelude.{
  ℕ, zero, suc, ◌+◌, ◌^◌, ◌≤◌, ◌<◌, ◌≡◌, refl, sym, ap, ◌∙◌, none, some, List, [], ◌∷◌, ◌++◌, ◌⊎◌,
  inl, inr, arith, ltb, length, drop, map, concat, All, length-append, length-drop, drop-append_eq,
  drop-append_add, append_assoc, lt→ltb, le→ltb, Bool-cases,
}
use socket_message.Wire.Bytes.{le32, of_le32, int_at, of_le32-le32, bytes_at, take_exactly-append}
use socket_message.Net.Result.{ok, out_of_buffer}
use socket_message.Net.Framing.{
  socket_head_size, frame, Packages, package_end, package_at, or_fault, read_loop, read_packages,
  add_package,
}

pub length-frame : (body : List ℕ) → length (frame body) ≡ 4 + length body
unfolding frame le32
length-frame body = omega arith

-- The beginning of a frame, whose end stays within the `int` behind `total` bytes.
abbrev pub IsPartial : ℕ → List ℕ → Type 0
IsPartial total rest =
    (length rest ≤ socket_head_size)
    ⊎ ((count : ℕ) × (of_le32 rest ≡ some count)
        × (total + socket_head_size + count < 2 ^ 31)
        × (length rest < socket_head_size + count))

package_end_stops :
    (size offset count : ℕ)
    → offset + 4 + count < 2 ^ 31
    → size < offset + 4 + count
    → package_end size offset count ≡ ok none
unfolding package_end
package_end_stops size offset count fits short = ground arith

package_end_goes :
    (size offset count : ℕ)
    → offset + 4 + count < 2 ^ 31
    → offset + 4 + count ≤ size
    → package_end size offset count ≡ ok (some (offset + 4 + count))
unfolding package_end
package_end_goes size offset count fits le = ground arith

-- The loop with a partial rest at `offset`.
read_loop_waits :
    (fuel : ℕ) (bytes rest : List ℕ) (offset : ℕ)
    → drop offset bytes ≡ rest
    → offset ≤ length bytes
    → IsPartial (length bytes) rest
    → read_loop (suc fuel) bytes offset ≡ ok (record { packages = []; offset = offset })
unfolding read_loop int_at
read_loop_waits fuel bytes rest offset e le (inl short) =
    rw (le→ltb (4 + offset) (length bytes) (omega (arith, ap length e, length-drop offset bytes)))
read_loop_waits fuel bytes rest offset e le (inr (count, ec, fits, short)) =
    elim (Bool-cases (ltb (4 + offset) (length bytes))) [
      | inr stop ↦ rw stop
      | inl more ↦ rw (
        more,
        ap of_le32 e ∙ ec,
        package_end_stops (length bytes) offset count (omega arith)
            (omega (arith, ap length e, length-drop offset bytes)),
      )
    ]

-- One whole package at `offset`.
read_loop_package :
    (fuel : ℕ) (before body later bytes : List ℕ) (offset : ℕ) (r : Packages)
    → length before ≡ offset
    → bytes ≡ before ++ (frame body ++ later)
    → length bytes < 2 ^ 31
    → 0 < length body
    → read_loop fuel bytes (offset + 4 + length body) ≡ ok r
    → read_loop (suc fuel) bytes offset ≡ ok (add_package body r)
unfolding read_loop
read_loop_package fuel before body later bytes offset r ho e fits pos er = rw (
  lt→ltb (4 + offset) (length bytes) (omega (arith, size)),
  head,
  package_end_goes (length bytes) offset (length body) (omega (arith, size)) (omega (arith, size)),
  text,
  er,
)
  where
    size : length bytes ≡ offset + (4 + length body) + length later
    size =
        ap length e
        ∙ omega (
          arith,
          length-append before (frame body ++ later),
          length-append (frame body) later,
          length-frame body,
        )

    split : bytes ≡ before ++ (le32 (length body) ++ (body ++ later))
    split = e ∙ unfold frame in ap (◌++◌ before) (append_assoc (le32 (length body)) body later)

    head : int_at bytes offset ≡ some (length body)
    head =
        unfold int_at in
        ap of_le32 (drop-append_eq before _ bytes offset ho split)
        ∙ of_le32-le32 (length body) (body ++ later) (omega (arith, size))

    text : package_at bytes offset (length body) ≡ ok body
    text =
        unfold package_at bytes_at in
        rw (split, drop-append_add offset 4 before (le32 (length body) ++ (body ++ later)) ho)
          (unfold le32 in
            ap (λ o. or_fault o out_of_buffer) (take_exactly-append (length body) body later refl))

-- All frames from `offset` on, and a partial one.
read_loop-frames :
    (fuel : ℕ) (bodies : List (List ℕ)) (before rest bytes : List ℕ) (offset : ℕ)
    → length bodies < fuel
    → length before ≡ offset
    → bytes ≡ before ++ (concat (map frame bodies) ++ rest)
    → length bytes < 2 ^ 31
    → All (λ body. 0 < length body) bodies
    → IsPartial (length bytes) rest
    → read_loop fuel bytes offset
      ≡ ok (record { packages = bodies; offset = offset + length (concat (map frame bodies)) })
read_loop-frames zero bodies before rest bytes offset enough ho e fits pos w = elim enough [ ]
read_loop-frames (suc fuel) [] before rest bytes offset enough ho e fits pos w =
    read_loop_waits fuel bytes rest offset (drop-append_eq before rest bytes offset ho e)
      (omega (arith, ap length e, length-append before rest)) w
    ∙ ap (λ n. ok (record { packages = []; offset = n })) (omega arith)
read_loop-frames (suc fuel) (body ∷ bodies) before rest bytes offset enough ho e fits pos w =
    read_loop_package fuel before body later bytes offset _ ho there fits pos.0 (
      read_loop-frames fuel bodies (before ++ frame body) rest bytes (offset + 4 + length body)
        (omega arith) (omega (arith, length-append before (frame body), length-frame body))
        (there ∙ sym (append_assoc before (frame body) later)) fits pos.1 w)
    ∙ ap (λ n. ok (record { packages = body ∷ bodies; offset = n }))
        (omega (arith, length-append (frame body) (concat (map frame bodies)), length-frame body))
  where
    later : List ℕ
    later = concat (map frame bodies) ++ rest

    there : bytes ≡ before ++ (frame body ++ later)
    there = e ∙ ap (◌++◌ before) (append_assoc (frame body) (concat (map frame bodies)) rest)

length-frames : (bodies : List (List ℕ)) → length bodies ≤ length (concat (map frame bodies))
length-frames [] = omega arith
length-frames (body ∷ bodies) = omega (
  arith,
  length-frames bodies,
  length-append (frame body) (concat (map frame bodies)),
  length-frame body,
)

-- Of any number of framed packages before a partial one, the loop of Client4ReadCallback hands on
-- exactly the packages, in order, and eats exactly their frames. No package is empty, the buffer
-- holds under 2 ^ 31 bytes, and the end of the partial package does not pass the `int` either.
pub read_packages-frames :
    (bodies : List (List ℕ)) (rest : List ℕ)
    → All (λ body. 0 < length body) bodies
    → length (concat (map frame bodies) ++ rest) < 2 ^ 31
    → IsPartial (length (concat (map frame bodies) ++ rest)) rest
    → read_packages (concat (map frame bodies) ++ rest)
      ≡ ok (record { packages = bodies; offset = length (concat (map frame bodies)) })
unfolding read_packages
read_packages-frames bodies rest pos fits w =
    read_loop-frames _ bodies [] rest _ 0
      (omega (arith, length-frames bodies, length-append (concat (map frame bodies)) rest)) refl
      refl fits pos w
    ∙ ap (λ n. ok (record { packages = bodies; offset = n })) (omega arith)
