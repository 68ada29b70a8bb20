-- ===== src/Patch/Delivery.antt =====
-- What `gpu_device_send_data` sends, seen from the renderer that reads it with
-- `load_resource_patched`.
use Prim.Native.Nat.{min}
use native.Mathlib.Decide.{dec_lt}
use remote_virtio_gpu.Prelude.{
  ℕ, ◌+◌, ◌-◌, ◌≤◌, ◌<◌, ◌≡◌, refl, sym, ap, ◌∙◌, inl, inr, List, [], ◌∷◌, ◌++◌, arith, some, true,
  length, take, drop, ltb, ◌==◌, u32_mod, Bool-cases, append_assoc, append-nil, overwrite-nil,
  length-append, length-take, length-drop, tests, drop-nil, take-nil,
}
use remote_virtio_gpu.Memory.{Memory, Iovec, flatten, total, load, length-flatten, length-load}
use remote_virtio_gpu.Wire.{Patch}
use remote_virtio_gpu.Renderer.Load.{load_resource_patched}
use remote_virtio_gpu.Patch.{
  PatchData, niov, iov_max, write_patch, init_patch, append_iov, add_patch, send_loop,
  gpu_device_send_data,
}
use remote_virtio_gpu.Patch.Rounds.{
  total_append, flatten_append, write_patch-nil, write_patch-cons, open_hdr-nil, open_hdr-cons,
  send_loop-done, send_loop-skip, send_loop-use, part_skipped, part_used, send_data_lem,
}
use remote_virtio_gpu.Patch.Pending.{Delivers, Delivers-patch, Pending}

module _ (mem : Memory) (memory : List ℕ) (start : ℕ) (small : length memory < u32_mod - 1) where
  -- Writing the array out delivers all.
  write_patch-Delivers :
      (out : List ℕ) (d : PatchData) (payload : List ℕ)
      → (0 < length payload → start + length payload ≤ length memory)
      → Pending mem memory start out d payload
      → Delivers memory start (out ++ write_patch mem d) payload
  write_patch-Delivers out d payload h p = elim p.begun [
    | inl e ↦
        let same : payload ≡ p.sent =
          p.split ∙ ap (λ l. p.sent ++ flatten mem l) e ∙ append-nil p.sent in
        rw (write_patch-nil mem d e, append-nil out, same) p.delivers
    | inr (a, b, c, n) ↦
        rw (write_patch-cons mem d n, p.split)
          (Delivers-patch memory start out p.sent (flatten mem d.iov) d.hdr (omega arith) p.delivers
            a b (c ∙ sym (length-flatten mem d.iov)) (omega arith)
            (omega (
              arith,
              ap length p.split,
              length-append p.sent (flatten mem d.iov),
              length-flatten mem d.iov,
            )))
  ]

  -- One more entry of the array.
  append_iov-Pending :
      (out : List ℕ) (d : PatchData) (payload : List ℕ) (offset : ℕ) (v : Iovec)
      → offset ≡ start + length payload
      → 0 < v.iov_len
      → offset + v.iov_len ≤ length memory
      → Pending mem memory start out d payload
      → Pending mem memory start out
          (append_iov d offset v)
          (payload ++ load mem v.iov_base v.iov_len)
  unfolding append_iov
  append_iov-Pending out d payload offset v e n h p = record {
    sent = p.sent;
    delivers = p.delivers;
    split =
        ap (λ l. l ++ load mem v.iov_base v.iov_len) p.split
        ∙ append_assoc p.sent (flatten mem d.iov) (load mem v.iov_base v.iov_len)
        ∙ ap (◌++◌ p.sent) (sym (flatten_append mem d.iov v));
    begun = inr (elim p.begun [
      | inl first ↦
          let nothing : length payload ≡ length p.sent + total d.iov = measured in
          let empty : total d.iov ≡ 0 = ap total first in
          rw (open_hdr-nil d offset first) (
            refl,
            omega arith,
            omega (arith, total_append d.iov v),
            omega (arith, total_append d.iov v),
          )
      | inr (a, b, c, k) ↦
          let all : length payload ≡ length p.sent + total d.iov = measured in
          rw (open_hdr-cons d offset k)
            (a, b, omega (arith, total_append d.iov v), omega (arith, total_append d.iov v))
    ]);
  }
    where
      measured : length payload ≡ length p.sent + total d.iov
      measured = omega (
        arith,
        ap length p.split,
        length-append p.sent (flatten mem d.iov),
        length-flatten mem d.iov,
      )

  -- A written array starts anew.
  init_patch-Pending :
      (out : List ℕ) (d : PatchData) (payload : List ℕ)
      → start + length payload ≤ length memory
      → Pending mem memory start out d payload
      → Pending mem memory start (out ++ write_patch mem d) (init_patch d) payload
  unfolding init_patch
  init_patch-Pending out d payload h p = record {
    sent = payload;
    delivers = write_patch-Delivers out d payload (λ _. h) p;
    split = sym (append-nil payload);
    begun = inl refl;
  }

  -- `add_patch` does not fail, and adds the bytes of its entry to what is delivered.
  add_patch-Pending :
      (out : List ℕ) (d : PatchData) (payload : List ℕ) (offset base len : ℕ)
      → offset ≡ start + length payload
      → 0 < len
      → offset + len ≤ length memory
      → Pending mem memory start out d payload
      → (sent : List ℕ) × (d' : PatchData) × (add_patch mem d offset base len ≡ some (sent, d'))
        × Pending mem memory start (out ++ sent) d' (payload ++ load mem base len)
  unfolding add_patch
  add_patch-Pending out d payload offset base len e n h p =
      let in_range : ltb offset (u32_mod - 1) ≡ true = omega tests in
      let v : Iovec = record { iov_base = base; iov_len = len } in
      elim (Bool-cases (niov d == iov_max)) [
        | inl full ↦ (
          write_patch mem d,
          append_iov (init_patch d) offset v,
          rw (in_range, full),
          append_iov-Pending (out ++ write_patch mem d) (init_patch d) payload offset v e n h
              (init_patch-Pending out d payload (omega arith) p),
        )
        | inr free ↦ (
          [],
          append_iov d offset v,
          rw (in_range, free),
          rw append-nil (append_iov-Pending out d payload offset v e n h p),
        )
      ]

  next_place :
      (v : Iovec) (skip len offset : ℕ) (payload : List ℕ)
      → skip < v.iov_len
      → offset + skip ≡ start + length payload
      → 0 < len - min len (v.iov_len - skip)
      → offset + v.iov_len + 0
        ≡ start + length (payload ++ load mem (v.iov_base + skip) (min len (v.iov_len - skip)))
  next_place v skip len offset payload h e k =
      let part = min len (v.iov_len - skip) in
      omega (
        arith,
        length-append payload (load mem (v.iov_base + skip) part),
        length-load mem (v.iov_base + skip) part,
      )

  -- The loop from an entry of `iovs` on does not fail, and adds the bytes that are asked for.
  send_loop-Pending :
      (vs : List Iovec) (skip len offset : ℕ) (d : PatchData) (out payload : List ℕ)
      → (0 < len → offset + skip ≡ start + length payload)
      → offset + total vs ≤ length memory
      → Pending mem memory start out d payload
      → (out' : List ℕ) × (d' : PatchData) × (send_loop mem vs skip len offset d out
          ≡ some (out', d'))
        × Pending mem memory start out' d' (payload ++ take len (drop skip (flatten mem vs)))
  send_loop-Pending [] skip len offset d out payload e h p =
      (out, d, unfold send_loop in refl, rw (drop-nil, take-nil, append-nil) p)
  send_loop-Pending (v ∷ vs) skip len offset d out payload e h p = elim (dec_lt 0 len) [
    | no none_left ↦
        let zero_len : len ≡ 0 = omega arith in
        (
          out,
          d,
          send_loop-done mem v vs skip len offset d out zero_len,
          rw (zero_len, append-nil) p,
        )
    | yes some_left ↦ elim (dec_lt skip v.iov_len) [
      | no skipped ↦
          let (out', d', eq, q) =
            send_loop-Pending vs (skip - v.iov_len) len (offset + v.iov_len) d out payload
              (omega arith) (omega arith) p in
          (
            out',
            d',
            send_loop-skip mem v vs skip len offset d out some_left (omega arith) (omega arith)
                ∙ eq,
            rw (part_skipped mem v vs skip len offset d out (omega arith)) q,
          )
      | yes used ↦
          let l = min len (v.iov_len - skip) in
          let (sent, d₁, added, p₁) =
            add_patch-Pending out d payload (offset + skip) (v.iov_base + skip) l (e some_left)
              (omega arith) (omega arith) p in
          let (out', d', eq, q) =
            send_loop-Pending vs 0 (len - l) (offset + v.iov_len) d₁ (out ++ sent)
              (payload ++ load mem (v.iov_base + skip) l)
              (next_place v skip len offset payload used (e some_left)) (omega arith) p₁ in
          (
            out',
            d',
            send_loop-use mem v vs skip len offset d out some_left used (omega arith) added ∙ eq,
            rw (part_used mem v vs skip len offset d out used, ← append_assoc) q,
          )
    ]
  ]

  -- `gpu_device_send_data` does not fail, and what it sends delivers the bytes that it was asked for.
  pub send_data-Delivers :
      (vs : List Iovec) (len : ℕ) (garbage : Patch)
      → total vs ≤ length memory
      → (out : List ℕ) × (gpu_device_send_data mem vs start len garbage ≡ some out)
        × Delivers memory start out (take len (drop start (flatten mem vs)))
  send_data-Delivers vs len garbage h =
      let d : PatchData = record { hdr = garbage; iov = [] } in
      let part = take len (drop start (flatten mem vs)) in
      let (out, d', eq, p) =
        send_loop-Pending vs start len 0 d [] [] (λ _. omega arith) (omega arith) nothing in
      (
        out ++ write_patch mem d',
        send_data_lem mem vs start len garbage eq,
        write_patch-Delivers out d' part
            (λ k. omega (
              arith,
              length-take len (drop start (flatten mem vs)),
              length-drop start (flatten mem vs),
              length-flatten mem vs,
            ))
            p,
      )
    where
      nothing : Pending mem memory start [] (record { hdr = garbage; iov = [] }) []
      nothing = record {
        sent = [];
        delivers = λ rest. ap (load_resource_patched rest) (sym (overwrite-nil memory start));
        split = refl;
        begun = inl refl;
      }
