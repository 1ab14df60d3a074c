-- ===== src/Net/Framing/Sound.antt =====
-- What the reading loop hands on, against the format: the packages, framed, and a rest.
use socket_message.Prelude.{
  All-drop, ℕ, zero, suc, ◌+◌, ◌^◌, ◌≤◌, ◌<◌, ◌≡◌, ◌≢◌, refl, sym, ap, subst, ◌∙◌, Option, none,
  some, List, [], ◌++◌, ◌⊎◌, inl, inr, arith, ltb, length, take, drop, map, concat, All, Bool-cases,
  Option-cases, length-drop, drop-drop, take-append-drop, length-take_le, append_assoc, ltb→lt,
  ltb→le,
}
use socket_message.Wire.Bytes.{
  bytes_at, take_exactly_le, IsByte, le32, int_at, le32-of_le32, of_le32_total,
}
use socket_message.Net.Result.{
  Fault, ok, err, bad_array_length, int_overflow, out_of_buffer, out_of_fuel, ok-injective,
  err-injective, Result-cases,
}
use socket_message.Net.Framing.{
  frame, Packages, package_end, package_at, read_loop, read_packages, IsWaiting, or_fault,
  add_package,
}

package_end-some :
    (size offset count next : ℕ)
    → package_end size offset count ≡ ok (some next)
    → (count < 2 ^ 31) × (next ≡ offset + 4 + count) × (next ≤ size)
unfolding package_end
package_end-some size offset count next e = ground arith

package_end-none :
    (size offset count : ℕ)
    → package_end size offset count ≡ ok none
    → (count < 2 ^ 31) × (size < offset + 4 + count)
unfolding package_end
package_end-none size offset count e = ground arith

-- What the loop promises from `offset` on.
abbrev Split : List ℕ → ℕ → Packages → Type 0
Split bytes offset r =
    (offset ≤ r.offset)
    × (r.offset ≤ length bytes)
    × (drop offset bytes ≡ concat (map frame r.packages) ++ drop r.offset bytes)
    × IsWaiting (drop r.offset bytes)

Split-stop :
    (bytes : List ℕ) (offset : ℕ)
    → offset ≤ length bytes
    → IsWaiting (drop offset bytes)
    → Split bytes offset (record { packages = []; offset = offset })
Split-stop bytes offset le w = (omega arith, le, refl, w)

-- A complete package at `offset`, framed.
frame_at :
    (bytes : List ℕ) (offset count : ℕ)
    → All IsByte bytes
    → int_at bytes offset ≡ some count
    → offset + 4 + count ≤ length bytes
    → drop offset bytes
      ≡ frame (take count (drop (offset + 4) bytes)) ++ drop (offset + 4 + count) bytes
unfolding frame int_at le32
frame_at bytes offset count h e le =
    head
    ∙ ap (◌++◌ (le32 count)) (drop-drop offset 4 bytes ∙ sym (take-append-drop count rest))
    ∙ rw (size, drop-drop (offset + 4) count bytes) refl
  where
    rest : List ℕ
    rest = drop (offset + 4) bytes

    head : drop offset bytes ≡ le32 count ++ drop 4 (drop offset bytes)
    head = (le32-of_le32 (drop offset bytes) count (All-drop IsByte offset bytes h) e).1

    size : length (take count rest) ≡ count
    size = length-take_le count rest (omega (arith, length-drop (offset + 4) bytes))

frame_to :
    (bytes : List ℕ) (offset count next : ℕ)
    → All IsByte bytes
    → int_at bytes offset ≡ some count
    → next ≡ offset + 4 + count
    → next ≤ length bytes
    → drop offset bytes ≡ frame (take count (drop (offset + 4) bytes)) ++ drop next bytes
frame_to bytes offset count next h e eq fits =
    subst (λ n. drop offset bytes ≡ frame (take count (drop (offset + 4) bytes)) ++ drop n bytes)
      (sym eq) (frame_at bytes offset count h e (omega arith))

-- The copy of a complete package stays within the buffer.
pub package_at-ok :
    (bytes : List ℕ) (offset count : ℕ)
    → offset + 4 + count ≤ length bytes
    → package_at bytes offset count ≡ ok (take count (drop (offset + 4) bytes))
unfolding package_at bytes_at
package_at-ok bytes offset count fits = rw (
    take_exactly_le count (drop (offset + 4) bytes) (omega (arith, length-drop (offset + 4) bytes)))

-- A head at the end of which the block ends, or whose package is not complete.
waits_for_head :
    (bytes : List ℕ) (offset : ℕ) → length bytes ≤ 4 + offset → IsWaiting (drop offset bytes)
waits_for_head bytes offset h = inl (omega (arith, length-drop offset bytes))

waits_for_body :
    (bytes : List ℕ) (offset count : ℕ)
    → offset ≤ length bytes
    → int_at bytes offset ≡ some count
    → count < 2 ^ 31
    → length bytes < offset + 4 + count
    → IsWaiting (drop offset bytes)
unfolding int_at
waits_for_body bytes offset count le e hc h =
    inr (count, e, hc, omega (arith, length-drop offset bytes))

or_fault-ok {ℓ} : {A : Type ℓ} (o : Option A) (x : Fault) {a : A} → or_fault o x ≡ ok a → o ≡ some a
or_fault-ok none x e = cc
or_fault-ok (some b) x e = cc

Split-add :
    (bytes : List ℕ) (offset next : ℕ) (body : List ℕ) (rest : Packages)
    → offset ≤ next
    → drop offset bytes ≡ frame body ++ drop next bytes
    → Split bytes next rest
    → Split bytes offset (add_package body rest)
Split-add bytes offset next body rest le e (lo, hi, eq, w) =
    (omega arith, hi, e ∙ ap (◌++◌ (frame body)) eq ∙ sym (append_assoc (frame body) _ _), w)

read_loop-Split :
    (fuel : ℕ) (bytes : List ℕ) (offset : ℕ) (r : Packages)
    → All IsByte bytes
    → offset ≤ length bytes
    → read_loop fuel bytes offset ≡ ok r
    → Split bytes offset r
unfolding read_loop
read_loop-Split zero bytes offset r h le e = cc
read_loop-Split (suc fuel) bytes offset r h le e =
    elim (Bool-cases (ltb (4 + offset) (length bytes))) [
      | inr stop ↦
          subst (Split bytes offset) (ok-injective (rw stop at e))
            (Split-stop bytes offset le (waits_for_head bytes offset (ltb→le _ _ stop)))
      | inl more ↦ elim (Option-cases (int_at bytes offset)) [
        | inl cut ↦ cc (rw (more, cut) at e)
        | inr (count, ec) ↦ elim (Result-cases (package_end (length bytes) offset count)) [
          | inr (x, ee) ↦ cc (rw (more, ec, ee) at e)
          | inl (none, ee) ↦
              let (hc, short) = package_end-none _ _ _ ee in
              subst (Split bytes offset) (ok-injective (rw (more, ec, ee) at e))
                (Split-stop bytes offset le (waits_for_body bytes offset count le ec hc short))
          | inl (some next, ee) ↦
              let (hc, eq, fits) = package_end-some _ _ _ _ ee in
              let copied = package_at-ok bytes offset count (omega arith) in
              elim (Result-cases (read_loop fuel bytes next)) [
                | inr (x, er) ↦ cc (rw (more, ec, ee, copied, er) at e)
                | inl (rest, er) ↦
                    subst (Split bytes offset) (ok-injective (rw (more, ec, ee, copied, er) at e)) (
                      Split-add bytes offset next _ rest (omega arith)
                        (frame_to bytes offset count next h ec eq fits)
                        (read_loop-Split fuel bytes next rest h fits er))
              ]
        ]
      ]
    ]

-- What the loop of Client4ReadCallback hands on is what the buffer holds: the bytes are the packages,
-- each behind its size, and then the rest from `offset` on, which is at most a head, or the head of a
-- package that is not complete. So it is for every buffer of bytes on which the loop returns.
pub read_packages_sound :
    (bytes : List ℕ) (r : Packages)
    → All IsByte bytes
    → read_packages bytes ≡ ok r
    → (r.offset ≤ length bytes)
      × (bytes ≡ concat (map frame r.packages) ++ drop r.offset bytes)
      × IsWaiting (drop r.offset bytes)
unfolding read_packages
read_packages_sound bytes r h e =
    let (lo, hi, eq, w) = read_loop-Split _ bytes 0 r h (omega arith) e in (hi, eq, w)

package_end_faults :
    (size offset count : ℕ) (x : Fault)
    → package_end size offset count ≡ err x
    → (x ≢ out_of_fuel) × (x ≢ out_of_buffer)
unfolding package_end
package_end_faults size offset count x e = (λ q. ground arith, λ q. ground arith)

int_at_total :
    (bytes : List ℕ) (offset : ℕ)
    → 4 + offset < length bytes
    → (w : ℕ) × (int_at bytes offset ≡ some w)
unfolding int_at
int_at_total bytes offset h =
    of_le32_total (drop offset bytes) (omega (arith, length-drop offset bytes))

read_loop_faults :
    (fuel : ℕ) (bytes : List ℕ) (offset : ℕ) (x : Fault)
    → length bytes < fuel + offset
    → offset ≤ length bytes
    → read_loop fuel bytes offset ≡ err x
    → (x ≢ out_of_fuel) × (x ≢ out_of_buffer)
unfolding read_loop
read_loop_faults zero bytes offset x enough le e = absurd (omega arith)
read_loop_faults (suc fuel) bytes offset x enough le e =
    elim (Bool-cases (ltb (4 + offset) (length bytes))) [
      | inr stop ↦ cc (rw stop at e)
      | inl more ↦
          let (count, ec) = int_at_total bytes offset (ltb→lt _ _ more) in
          elim (Result-cases (package_end (length bytes) offset count)) [
            | inr (y, ee) ↦
                package_end_faults _ _ _ x (ee ∙ ap err (err-injective (rw (more, ec, ee) at e)))
            | inl (none, ee) ↦ cc (rw (more, ec, ee) at e)
            | inl (some next, ee) ↦
                let (hc, eq, fits) = package_end-some _ _ _ _ ee in
                let copied = package_at-ok bytes offset count (omega arith) in
                elim (Result-cases (read_loop fuel bytes next)) [
                  | inl (rest, er) ↦ cc (rw (more, ec, ee, copied, er) at e)
                  | inr (y, er) ↦
                      read_loop_faults fuel bytes next x (omega arith) fits
                        (er ∙ ap err (err-injective (rw (more, ec, ee, copied, er) at e)))
                ]
          ]
    ]

-- The loop of Client4ReadCallback ends on every buffer, within the rounds that the model allows it, and
-- never reads past the buffer, neither a head nor a package: it returns, or it meets a negative count,
-- on which `new char[]` throws, or a sum beyond the `int`.
pub read_packages_total :
    (bytes : List ℕ)
    → ((r : Packages) × (read_packages bytes ≡ ok r))
      ⊎ (read_packages bytes ≡ err bad_array_length)
      ⊎ (read_packages bytes ≡ err int_overflow)
unfolding read_packages
read_packages_total bytes = elim (Result-cases (read_packages bytes)) [
  | inl (r, e) ↦ inl (r, e)
  | inr (bad_array_length, e) ↦ inr (inl e)
  | inr (int_overflow, e) ↦ inr (inr e)
  | inr (out_of_buffer, e) ↦
      absurd ((read_loop_faults _ bytes 0 out_of_buffer (omega arith) (omega arith) e).1 refl)
  | inr (out_of_fuel, e) ↦
      absurd ((read_loop_faults _ bytes 0 out_of_fuel (omega arith) (omega arith) e).0 refl)
]
