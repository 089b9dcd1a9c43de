-- ===== src/Handlers/Proxy/Chunks.antt =====
-- The parts in which the answer of the other host arrives.
use web_server_development.Prelude.{
  Bool, true, false, [], ◌∷◌, ◌++◌, ◌≡◌, refl, sym, ap, append_assoc, ◌==◌, Bool-cases, inl, inr,
}
use web_server_development.Text.{Bytes, push_back}
use web_server_development.Text.Stream.{Stream, is_good, is_return, block_from, block_rest}
use web_server_development.World.{World}
use web_server_development.Handlers.Proxy.Exchange.{Network, Reply, read_response}

-- The loop over the lines, with `line` read so far, comes to an empty one.
unfoldable pub ends_block : Bytes → Bytes → Bool
ends_block line [] = false
ends_block line (c ∷ cs) = elim (c == b'\n') [
  | true ↦ elim (is_return line) [ true ↦ true | false ↦ ends_block [] cs ]
  | false ↦ ends_block (push_back line c) cs
]

block_from-append :
    (line s t : Bytes) → ends_block line s ≡ true → block_from line (s ++ t) ≡ block_from line s
unfolding block_from ends_block
block_from-append line [] t h = absurd (cc h)
block_from-append line (c ∷ cs) t h = elim (Bool-cases (c == b'\n')) [
  | inl feed ↦ elim (Bool-cases (is_return line)) [
    | inl return ↦ rw (feed, block_from) (rw return refl)
    | inr other ↦
        rw (feed, block_from)
          (rw other
            (ap (◌∷◌ line) (block_from-append [] cs t (rw other at (rw (feed, ends_block) at h)))))
  ]
  | inr byte ↦
      rw (byte, block_from) (block_from-append (push_back line c) cs t (rw (byte, ends_block) at h))
]

block_rest-append :
    (line s t : Bytes)
    → ends_block line s ≡ true
    → block_rest line (s ++ t) ≡ block_rest line s ++ t
unfolding block_rest ends_block
block_rest-append line [] t h = absurd (cc h)
block_rest-append line (c ∷ cs) t h = elim (Bool-cases (c == b'\n')) [
  | inl feed ↦ elim (Bool-cases (is_return line)) [
    | inl return ↦ rw (feed, block_rest) (rw return refl)
    | inr other ↦
        rw (feed, block_rest)
          (rw other (block_rest-append [] cs t (rw other at (rw (feed, ends_block) at h))))
  ]
  | inr byte ↦
      rw (byte, block_rest) (block_rest-append (push_back line c) cs t (rw (byte, ends_block) at h))
]

-- How many bytes beyond the empty line come with the headers, and how many with the body, is the
-- same to the response: only their sequence counts. The empty line is among the bytes of the headers, and the
-- stream is good behind the first line.
pub read_response-append :
    (w : World) (net : Network) (prefix port : Bytes) (s : Stream) (reply : Reply) (early : Bytes)
    → is_good s ≡ true
    → ends_block [] (s.left ++ reply.second) ≡ true
    → read_response w net prefix port s (record reply { second = reply.second ++ early })
      ≡ read_response w net prefix port s (record reply { others = early ++ reply.others })
unfolding read_response
read_response-append w net prefix port s reply early good h =
    let apart = append_assoc s.left reply.second early in
    rw good (
      rw (sym apart) (
        rw (block_from-append [] (s.left ++ reply.second) early h) (
          rw (block_rest-append [] (s.left ++ reply.second) early h)
            (rw (append_assoc (block_rest [] (s.left ++ reply.second)) early reply.others) refl))))
