-- ===== src/Agent/Clipboard/Payload.antt =====
-- clipboard.rs: payloads on the wire, and the fingerprint of a payload.
use Prim.Native.Nat.{bit_xor}
use win_xtend.Prelude.{
  ℕ, ◌-◌, ◌*◌, ◌^◌, ◌%◌, ◌≤◌, min, max, ◌≡◌, refl, ap, sym, ◌∙◌, inl, inr, Option, some, List, [],
  ◌∷◌, ◌++◌, length, take, drop, arith, Option-cases, take-append-drop,
}
use win_xtend.Agent.Clipboard.{
  ClipboardFormat, ok, compress, decompress, max_clipboard_bytes, eat, fnv_offset, u64_bytes,
  fingerprint, fingerprint_sample,
}

module _ (pack : List ℕ → Option (List ℕ)) (unpack : List ℕ → ℕ → Option (List ℕ)) where
  -- Unpacking within the limit gives back what was packed.
  abbrev pub Unpacks : Type 0
  Unpacks =
      (bytes packed : List ℕ) (limit : ℕ)
      → pack bytes ≡ some packed
      → length bytes ≤ limit
      → unpack packed limit ≡ some bytes

  -- If unpacking inverts packing within its limit, a payload that is not over the limit of the
  -- protocol comes back from the wire as it was, whatever its format is; and it never grows on the
  -- way.
  pub decompress-compress :
      Unpacks
      → (format : ClipboardFormat) (bytes : List ℕ) → length bytes ≤ max_clipboard_bytes
      → let sent = compress pack format bytes in
        (decompress unpack sent.0 sent.1 ≡ ok bytes) × (length sent.1 ≤ length bytes)
  unfolding compress decompress
  decompress-compress inverts format bytes small = elim (Option-cases (pack bytes)) [
    | inl failed ↦ (ground arith, ground arith)
    | inr (packed, e) ↦
        (ground (arith, inverts bytes packed max_clipboard_bytes e small), ground arith)
  ]

eat-append : (xs ys : List ℕ) (hash : ℕ) → eat hash (xs ++ ys) ≡ eat (eat hash xs) ys
unfolding eat
eat-append [] ys hash = refl
eat-append (x ∷ xs) ys hash = eat-append xs ys (bit_xor hash x * 1099511628211 % 2 ^ 64)

-- Up to twice the sample, the two samples meet without a gap or an overlap: the fingerprint hashes
-- the length and then every byte once, so it is plain FNV-1a.
pub fingerprint-whole :
    (bytes : List ℕ)
    → length bytes ≤ 2 * fingerprint_sample
    → fingerprint bytes ≡ eat fnv_offset (u64_bytes (length bytes) ++ bytes)
unfolding fingerprint
fingerprint-whole bytes short =
    let n = length bytes in
    let head = min n fingerprint_sample in
    let meets : max (n - fingerprint_sample) head ≡ head = omega arith in
    rw meets (
      sym (eat-append (take head bytes) (drop head bytes) _)
      ∙ ap (eat (eat fnv_offset (u64_bytes n))) (take-append-drop head bytes)
      ∙ sym (eat-append (u64_bytes n) bytes fnv_offset))
