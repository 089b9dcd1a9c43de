-- ===== src/Handlers/Proxy/Prefix.antt =====
-- What the proxy asks the host for.
use web_server_development.Prelude.{
  Bool-cases, inl, inr, ◌⊎◌, if◌then◌else◌, ℕ, suc, ◌+◌, ◌-◌, false, [], ◌∷◌, ◌++◌, some, ◌≡◌, refl,
  ◌∙◌, sym, ap, ap₂, arith, ok, ◌==◌, length, length-append, drop-length-append, append_assoc,
  le→ltb_false,
}
use web_server_development.Text.{
  Bytes, codes, equal, is_empty, substr, substr_from, compare_at, pop_back, sub_size,
}
use web_server_development.Text.Search.{find_text, find_text-front, substr_from-append}
use web_server_development.Request.{Request}
use web_server_development.World.{World}
use web_server_development.Handlers.Static.{end_with_slash}
use web_server_development.Handlers.Proxy.{
  ProxyHandler, forwarded_uri, forward, search_prefix, handle_proxy,
}
use web_server_development.Handlers.Proxy.Forward.{get_proxy_request}
use web_server_development.Handlers.Proxy.Exchange.{Network, send_request}

-- The last byte of a text
last_byte :
    (s : Bytes) (c : ℕ) → substr (s ++ c ∷ []) (sub_size (length (s ++ c ∷ [])) 1) 1 ≡ ok (c ∷ [])
unfolding substr
last_byte s c =
    let long : length (s ++ c ∷ []) ≡ suc (length s) = omega (arith, length-append s (c ∷ [])) in
    let at : sub_size (length (s ++ c ∷ [])) 1 ≡ length s = ground arith in
    rw at (
      rw (le→ltb_false (length (s ++ c ∷ [])) (length s) (omega arith))
        (rw (drop-length-append s (c ∷ [])) refl))

-- A slash is added unless there is one.
end_with_slash-concat :
    (s : Bytes) (c : ℕ)
    → end_with_slash (s ++ c ∷ [])
      ≡ ok (if c == b'/' then s ++ c ∷ [] else (s ++ c ∷ []) ++ codes "/")
unfolding end_with_slash compare_at equal
end_with_slash-concat s c = elim (Bool-cases (c == b'/')) [
  | inl slash ↦ rw (last_byte s c) (rw slash refl)
  | inr other ↦ rw (last_byte s c) (rw other refl)
]

pub pop_back-concat : (s : Bytes) (c : ℕ) → pop_back (s ++ c ∷ []) ≡ ok s
unfolding pop_back
pop_back-concat [] c = refl
pop_back-concat (d ∷ []) c = refl
pop_back-concat (d ∷ e ∷ s) c = rw (pop_back-concat (e ∷ s) c) refl

-- The text without the slash at its end, if it has one there
abbrev pub without_slash : Bytes → Bytes
without_slash [] = []
without_slash (c ∷ []) = if c == b'/' then [] else c ∷ []
without_slash (c ∷ d ∷ s) = c ∷ without_slash (d ∷ s)

without_slash-concat :
    (s : Bytes) (c : ℕ) → without_slash (s ++ c ∷ []) ≡ (if c == b'/' then s else s ++ c ∷ [])
without_slash-concat [] c = refl
without_slash-concat (d ∷ []) c = elim (Bool-cases (c == b'/')) [
  | inl slash ↦ rw slash refl
  | inr other ↦ rw other refl
]
without_slash-concat (d ∷ e ∷ s) c = elim (Bool-cases (c == b'/')) [
  | inl slash ↦ rw slash (ap (◌∷◌ d) (without_slash-concat (e ∷ s) c ∙ rw slash refl))
  | inr other ↦ rw other (ap (◌∷◌ d) (without_slash-concat (e ∷ s) c ∙ rw other refl))
]

-- A text is empty or has a last byte.
last-cases : (s : Bytes) → (s ≡ []) ⊎ ((front : Bytes) × ((c : ℕ) × (s ≡ front ++ c ∷ [])))
last-cases [] = inl refl
last-cases (d ∷ s) = elim (last-cases s) [
  | inl none_left ↦ inr ([], (d, ap (◌∷◌ d) none_left))
  | inr (front, (c, is)) ↦ inr (d ∷ front, (c, ap (◌∷◌ d) is))
]

-- What is left of the uri behind the prefix but for its slash
forwarded_uri-cut :
    (h : ProxyHandler) (front rest : Bytes)
    → h.prefix ≡ front ++ codes "/"
    → forwarded_uri h (front ++ rest) 0
      ≡ (if equal rest (codes "/") then ok rest else pop_back rest)
unfolding forwarded_uri
forwarded_uri-cut h front rest p =
    let long : length h.prefix ≡ length front + 1 = ap length p ∙ length-append front (codes "/") in
    let at : 0 + length h.prefix - 1 ≡ length front = omega arith in
    let cut : substr_from (front ++ rest) (0 + length h.prefix - 1) ≡ ok rest =
      ap (substr_from (front ++ rest)) at ∙ substr_from-append front rest in
    rw (cut, forwarded_uri) refl

not_slash : (s : Bytes) (c : ℕ) → equal (b'/' ∷ (s ++ c ∷ [])) (codes "/") ≡ false
unfolding equal
not_slash [] c = refl
not_slash (d ∷ s) c = refl

-- Two bytes or more behind the prefix lose the last one.
forwarded_uri-pop :
    (h : ProxyHandler) (front s : Bytes) (c : ℕ)
    → h.prefix ≡ front ++ codes "/"
    → forwarded_uri h (front ++ (b'/' ∷ (s ++ c ∷ []))) 0 ≡ ok (b'/' ∷ s)
forwarded_uri-pop h front s c p =
    forwarded_uri-cut h front (b'/' ∷ (s ++ c ∷ [])) p
    ∙ rw (not_slash s c) (pop_back-concat (b'/' ∷ s) c)

-- Once the slash is added, if need be
closed_uri :
    (h : ProxyHandler) (front tail : Bytes)
    → h.prefix ≡ front ++ codes "/"
    → (rest : Bytes) × (end_with_slash (front ++ (b'/' ∷ tail)) ≡ ok (front ++ (b'/' ∷ rest)))
      × (forwarded_uri h (front ++ (b'/' ∷ rest)) 0 ≡ ok (b'/' ∷ without_slash tail))
unfolding equal
closed_uri h front tail p = elim (last-cases tail) [
  | inl empty ↦ (
    [],
    rw empty (end_with_slash-concat front b'/'),
    rw empty (forwarded_uri-cut h front (codes "/") p),
  )
  | inr (s, (c, is)) ↦
      let whole : front ++ (b'/' ∷ (s ++ c ∷ [])) ≡ (front ++ (b'/' ∷ s)) ++ c ∷ [] =
        sym (append_assoc front (b'/' ∷ s) (c ∷ [])) in
      let made = ap end_with_slash whole ∙ end_with_slash-concat (front ++ (b'/' ∷ s)) c in
      rw is (elim (Bool-cases (c == b'/')) [
        | inl slash ↦ (
          s ++ c ∷ [],
          made ∙ rw slash (ap ok (sym whole)),
          forwarded_uri-pop h front s c p
              ∙ ap (λ (x : Bytes). ok (b'/' ∷ x)) (sym (without_slash-concat s c ∙ rw slash refl)),
        )
        | inr other ↦ (
          (s ++ c ∷ []) ++ codes "/",
          made
              ∙ rw other (
                  ap (λ (x : Bytes). ok (x ++ codes "/")) (sym whole)
                  ∙ ap ok (append_assoc front (b'/' ∷ (s ++ c ∷ [])) (codes "/"))),
          forwarded_uri-pop h front (s ++ c ∷ []) b'/' p
              ∙ ap (λ (x : Bytes). ok (b'/' ∷ x)) (sym (without_slash-concat s c ∙ rw other refl)),
        )
      ])
]

-- A request for a uri that starts with the prefix is sent, once made the proxy's own, to the
-- configured host, for the uri behind the prefix, without the slash at its end, if it has one there.
-- The configured path is not part of what is asked for. The prefix ends in a slash, as the
-- constructor makes it, and the configured host and path are not empty.
pub handle_proxy-prefix :
    (w : World) (net : Network) (fuel : ℕ) (h : ProxyHandler) (q : Request) (front tail : Bytes)
    → is_empty h.host ≡ false
    → is_empty h.path ≡ false
    → h.prefix ≡ front ++ codes "/"
    → q.uri ≡ front ++ (b'/' ∷ tail)
    → handle_proxy w net fuel h q
      ≡ send_request w net h.prefix h.port fuel
          (get_proxy_request q
            (record { host = h.host; path = b'/' ∷ without_slash tail; query = [] }))
          h.host
unfolding handle_proxy send_request
handle_proxy-prefix w net fuel h q front tail ne_host ne_path p u =
    let (rest, closed, cut) = closed_uri h front tail p in
    let whole : end_with_slash q.uri ≡ ok (front ++ (b'/' ∷ rest)) = ap end_with_slash u ∙ closed in
    let found : find_text h.prefix (front ++ (b'/' ∷ rest)) ≡ some 0 =
      ap₂ find_text p (sym (append_assoc front (codes "/") rest))
      ∙ find_text-front (front ++ codes "/") rest in
    rw (ne_host, handle_proxy)
      (rw ne_path (rw whole (rw (found, search_prefix) (rw (cut, forward) refl))))
