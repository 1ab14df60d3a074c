-- ===== src/Net/Counters.antt =====
-- SocketControl.cpp: the four counters that the monitor prints, at the receiving end and at their reset.
-- The sending ones grow in Net/Control.
use socket_message.Prelude.{
  ℕ, ◌+◌, ◌≡◌, ap, ◌∙◌, List, [], ◌∷◌, map, concat, arith, length, drop, All, length-append,
  length-drop,
}
use socket_message.Wire.Bytes.{IsByte}
use socket_message.Net.Result.{ok}
use socket_message.Net.Framing.{Packages, frame, socket_head_size, read_packages}
use socket_message.Net.Framing.Complete.{length-frame}
use socket_message.Net.Framing.Sound.{read_packages_sound}

-- The constructor does not set them; they are set by the first ClearSendRecvCount.
pub record Counters : Type 0 where
  pub send_package_count : ℕ
  pub send_byte_count : ℕ
  pub recv_package_count : ℕ
  pub recv_byte_count : ℕ

-- ClearSendRecvCount
unfoldable pub clear_send_recv_count : Counters
clear_send_recv_count = record {
  send_package_count = 0;
  send_byte_count = 0;
  recv_package_count = 0;
  recv_byte_count = 0;
}

-- The end of a round of Client4ReadCallback's loop, for each package.
unfoldable pub count_received : List (List ℕ) → Counters → Counters
count_received [] c = c
count_received (p ∷ ps) c = count_received ps (record c {
  recv_package_count = c.recv_package_count + 1;
  recv_byte_count = c.recv_byte_count + socket_head_size + length p;
})

count_received-sums :
    (ps : List (List ℕ)) (c : Counters)
    → count_received ps c ≡ record c {
      recv_package_count = c.recv_package_count + length ps;
      recv_byte_count = c.recv_byte_count + length (concat (map frame ps));
    }
unfolding count_received
count_received-sums [] c = λ i. record c {
  recv_package_count = add_zero c.recv_package_count i;
  recv_byte_count = add_zero c.recv_byte_count i;
}
  where
    add_zero : (n : ℕ) → n ≡ n + 0
    add_zero n = omega arith
count_received-sums (p ∷ ps) c = count_received-sums ps _ ∙ λ i. record c {
  recv_package_count = add_one i;
  recv_byte_count = add_frame i;
}
  where
    add_one : c.recv_package_count + 1 + length ps ≡ c.recv_package_count + length (p ∷ ps)
    add_one = omega arith

    add_frame :
        c.recv_byte_count + socket_head_size + length p + length (concat (map frame ps))
        ≡ c.recv_byte_count + length (concat (map frame (p ∷ ps)))
    add_frame = omega (arith, length-append (frame p) (concat (map frame ps)), length-frame p)

-- What Client4ReadCallback adds to the counters of what is received is the number of packages that it
-- hands on, and exactly the bytes that it eats from the buffer.
pub counts_what_it_eats :
    (bytes : List ℕ) (r : Packages) (c : Counters)
    → All IsByte bytes
    → read_packages bytes ≡ ok r
    → count_received r.packages c ≡ record c {
      recv_package_count = c.recv_package_count + length r.packages;
      recv_byte_count = c.recv_byte_count + r.offset;
    }
counts_what_it_eats bytes r c h e =
    let (le, split, waits) = read_packages_sound bytes r h e in
    count_received-sums r.packages c
    ∙ ap
        (λ n. record c {
          recv_package_count = c.recv_package_count + length r.packages;
          recv_byte_count = c.recv_byte_count + n;
        })
        (omega (
          arith,
          ap length split,
          length-append (concat (map frame r.packages)) (drop r.offset bytes),
          length-drop r.offset bytes,
        ))
