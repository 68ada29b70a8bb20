-- ===== src/Utils/Tests.antt =====
-- Runs of the utilities, and their theorem at a concrete input.
use remote_virtio_gpu.Prelude.{ℕ, ◌≡◌, refl, List, [], ◌∷◌, ◌++◌, true, arith}
use remote_virtio_gpu.Utils.{
  buffer, null_pointer, overrun, Answer, moved, again, returned, write_all, write_loop, read_all,
  read_all_loop, htonl_bytes, ntohl_bytes, send_str_with_size, recv_str_all, c_string,
}
use remote_virtio_gpu.Utils.Strings.{recv_str_all-send}

-- One byte at a time, with an interruption.
abbrev slow : List Answer
slow = moved 0 ∷ again ∷ moved 0 ∷ moved 0 ∷ moved 0 ∷ moved 0 ∷ moved 0 ∷ moved 0 ∷ moved 0 ∷ []

-- As much as there is.
abbrev fast : List Answer
fast = moved 9 ∷ moved 9 ∷ moved 9 ∷ moved 9 ∷ moved 9 ∷ moved 9 ∷ moved 9 ∷ moved 9 ∷ []

abbrev word : List ℕ
word = b'o' ∷ b'k' ∷ []

sent_word : send_str_with_size slow word ≡ returned (0 ∷ 0 ∷ 0 ∷ 3 ∷ b'o' ∷ b'k' ∷ 0 ∷ [])
unfolding send_str_with_size write_all write_loop htonl_bytes
sent_word = refl

-- A connection that closes inside the string.
cut_word : recv_str_all true fast (0 ∷ 0 ∷ 0 ∷ 3 ∷ b'o' ∷ []) ≡ returned (null_pointer, [])
unfolding recv_str_all read_all read_all_loop ntohl_bytes
cut_word = refl

-- The greatest size makes a buffer of no bytes.
greatest_size :
    recv_str_all true fast (255 ∷ 255 ∷ 255 ∷ 255 ∷ b'o' ∷ []) ≡ returned (overrun, b'o' ∷ [])
unfolding recv_str_all read_all read_all_loop ntohl_bytes
greatest_size = refl

recv_str_all-send_example :
    (sent : List ℕ) × (chars : List ℕ) × (send_str_with_size slow word ≡ returned sent)
    × (recv_str_all true fast (sent ++ (7 ∷ [])) ≡ returned (buffer chars, 7 ∷ []))
    × (c_string chars ≡ word)
recv_str_all-send_example =
    recv_str_all-send word (7 ∷ []) slow fast
      ((λ e. absurd (omega (arith, e))), ((λ e. absurd (omega (arith, e))), tt)) (omega arith) tt
      (omega arith) tt (omega arith)
