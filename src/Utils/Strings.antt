-- ===== src/Utils/Strings.antt =====
-- A string that one program sends, the other receives.
use remote_virtio_gpu.Prelude.{
  ℕ, ◌+◌, ◌%◌, ◌≤◌, ◌<◌, ◌≡◌, ◌≢◌, refl, sym, ap, ◌∙◌, List, [], ◌∷◌, ◌++◌, some, true, false,
  arith, length, take, drop, ◌==◌, length-append, append_assoc, take_all, take-append, drop-append,
  All, u32_mod,
}
use remote_virtio_gpu.Utils.{
  Answer, returned, write_all, htonl_bytes, ntohl_bytes, is_count, send_str_with_size, whole,
  buffer, recv_str_all, c_string,
}
use remote_virtio_gpu.Utils.Willing.{
  Willing, moves, AllWritten, write_all-AllWritten, read_all-AllRead,
}

ntohl_bytes-htonl_bytes : (n : ℕ) → n < u32_mod → ntohl_bytes (htonl_bytes n) ≡ n
unfolding ntohl_bytes htonl_bytes
ntohl_bytes-htonl_bytes n h = omega arith

length-htonl_bytes : (n : ℕ) → length (htonl_bytes n) ≡ 4
unfolding htonl_bytes
length-htonl_bytes n = refl

c_string-zero : (str rest : List ℕ) → All (λ b. b ≢ 0) str → c_string (str ++ (0 ∷ rest)) ≡ str
c_string-zero [] rest h = refl
c_string-zero (b ∷ bs) rest (h, hs) =
    let e : (b == 0) ≡ false = ground arith in rw e (ap (◌∷◌ b) (c_string-zero bs rest hs))

is_count_self : (n : ℕ) → is_count (some n) n ≡ true
is_count_self n = ground arith

module _ (str : List ℕ) (short : length str + 2 < u32_mod) where
  abbrev size : ℕ
  size = length str + 1

  -- What is sent of a string.
  abbrev message : List ℕ
  message = htonl_bytes size ++ (str ++ (0 ∷ []))

  module _ (ks : List Answer) (w : Willing ks) (h : size + 4 ≤ moves ks) where
    first_written : AllWritten ks [] (htonl_bytes size) (write_all ks (htonl_bytes size))
    first_written =
        write_all-AllWritten ks (htonl_bytes size) w (omega (arith, length-htonl_bytes size))

    send_lem : send_str_with_size ks str ≡ returned message
    send_lem =
        let a = first_written in
        let n = length-htonl_bytes size in
        let l = length-append str (0 ∷ []) in
        let b =
          write_all-AllWritten a.left (str ++ (0 ∷ [])) a.willing (omega (arith, a.enough, n, l)) in
        let same : (length str + 1) % u32_mod ≡ size = omega arith in
        let cut : take size (str ++ (0 ∷ [])) ≡ str ++ (0 ∷ []) =
          take_all size (str ++ (0 ∷ [])) (omega (arith, l)) in
        let count : is_count (some (length (htonl_bytes size))) 4 ≡ true =
          (rw n (is_count_self 4)) in
        unfold send_str_with_size in
        rw (same, a.all, count, same, cut, b.all, send_str_with_size) refl

  module _ (ks : List Answer) (w : Willing ks) (h : size + 4 ≤ moves ks) (rest : List ℕ) where
    recv_lem :
        recv_str_all true ks (message ++ rest)
        ≡ returned (buffer ((str ++ (0 ∷ [])) ++ (0 ∷ [])), rest)
    recv_lem =
        let n = length-htonl_bytes size in
        let body = (str ++ (0 ∷ [])) ++ rest in
        let l = length-append str (0 ∷ []) in
        let flat : message ++ rest ≡ htonl_bytes size ++ body =
          append_assoc (htonl_bytes size) (str ++ (0 ∷ [])) rest in
        let a =
          read_all-AllRead ks 4 (htonl_bytes size ++ body) w (omega arith)
            (omega (arith, length-append (htonl_bytes size) body, n)) in
        let b =
          read_all-AllRead a.left size body a.willing (omega (arith, a.enough))
            (omega (arith, length-append (str ++ (0 ∷ [])) rest, l)) in
        let front : take 4 (htonl_bytes size ++ body) ≡ htonl_bytes size =
          take-append 4 (htonl_bytes size) body (sym n) in
        let behind : drop 4 (htonl_bytes size ++ body) ≡ body =
          drop-append 4 (htonl_bytes size) body (sym n) in
        let value = ntohl_bytes-htonl_bytes size (omega arith) in
        let some_bytes : ((size + 1) % u32_mod == 0) ≡ false = ground arith in
        let got : take size body ≡ str ++ (0 ∷ []) =
          take-append size (str ++ (0 ∷ [])) rest (sym l) in
        let left : drop size body ≡ rest = drop-append size (str ++ (0 ∷ [])) rest (sym l) in
        let c4 : is_count (some (0 + 4)) 4 ≡ true = refl in
        let cs : is_count (some (0 + size)) size ≡ true = ground arith in
        unfold recv_str_all in
        (ap (recv_str_all true ks) flat
          ∙ rw
              (
                a.all, front, behind, value, some_bytes, b.all, front, value, cs, got, left,
                recv_str_all, whole,
              )
              refl)

-- What `send_str_with_size` writes of a string, `recv_str_all` reads as that string, and leaves the
-- stream at what was written behind it, however either kernel cuts the bytes up. It is assumed that
-- the string has no byte 0 and fewer than 2 ^ 32 - 2 bytes, that both kernels go on answering without
-- an error, and that there is memory.
pub recv_str_all-send :
    (str rest : List ℕ) (ks rs : List Answer)
    → All (λ b. b ≢ 0) str
    → length str + 2 < u32_mod
    → Willing ks
    → length str + 5 ≤ moves ks
    → Willing rs
    → length str + 5 ≤ moves rs
    → (sent : List ℕ) × (chars : List ℕ) × (send_str_with_size ks str ≡ returned sent)
      × (recv_str_all true rs (sent ++ rest) ≡ returned (buffer chars, rest))
      × (c_string chars ≡ str)
recv_str_all-send str rest ks rs nonzero short w h v k = (
  message str short,
  (str ++ (0 ∷ [])) ++ (0 ∷ []),
  send_lem str short ks w (omega arith),
  recv_lem str short rs v (omega arith) rest,
  ap c_string (append_assoc str (0 ∷ []) (0 ∷ [])) ∙ c_string-zero str (0 ∷ []) nonzero,
)
