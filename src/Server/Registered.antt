-- ===== src/Server/Registered.antt =====
-- Which handler a server has under a location.
use web_server_development.Prelude.{
  List, [], ◌∷◌, none, some, ◌≡◌, ◌≢◌, ◌⊎◌, ◌↔◌, refl, inl, inr, sym, ◌∙◌, ok, >>=-eq-ok,
  ok-injective, arith, Bool-cases, Option-cases, subst, ap,
}
use mathlib.Core.Option.{some-injective}
use web_server_development.Text.{Bytes, equal}
use web_server_development.Text.Laws.{equal_iff}
use web_server_development.StdMap.{find, insert}
use web_server_development.StdMap.Laws.{
  IsSorted, insert-IsSorted, find-insert_present, find-insert_same, find-insert_other,
}
use web_server_development.Config.{NginxConfig, Location, get_location_result}
use web_server_development.Session.Routing.{RequestHandler, Locations}
use web_server_development.Server.{
  Inits, HandlerKind, kind_of, init_location, add_request_handler, add_locations, make_locations,
}

module _ (init : Inits) (uri : Bytes) (h : RequestHandler) where
  -- The handler is the one of the first location with the uri and with a name that is known.
  pub data IsFirst : List Location → Type 0 where
    first :
        (l : Location) (ls : List Location) {k : _}
        → l.uri ≡ uri
        → kind_of l.handler_name ≡ some k
        → init_location init k l ≡ ok h
        → IsFirst (l ∷ ls)
    later :
        (l : Location) (ls : List Location)
        → (kind_of l.handler_name ≡ none) ⊎ (l.uri ≢ uri)
        → IsFirst ls
        → IsFirst (l ∷ ls)

module _ (init : Inits) where
  add_locations-IsSorted :
      (ls : List Location) (m : Locations) {m' : Locations}
      → IsSorted m
      → add_locations init ls m ≡ ok m'
      → IsSorted m'
  unfolding add_locations add_request_handler
  add_locations-IsSorted [] m s e = subst IsSorted (ok-injective _ _ e) s
  add_locations-IsSorted (l ∷ ls) m s e = elim (Option-cases (kind_of l.handler_name)) [
    | inl unknown ↦ add_locations-IsSorted ls m s (rw (unknown, add_locations) at e)
    | inr (k, known) ↦
        let (m₁, f, e') =
          >>=-eq-ok (add_request_handler init k l m) (add_locations init ls)
            (rw (known, add_locations) at e) in
        let (h, g, i) = >>=-eq-ok (init_location init k l) _ f in
        add_locations-IsSorted ls m₁
          (subst IsSorted (ok-injective _ _ i) (insert-IsSorted l.uri h m s)) e'
  ]

  added :
      (l : Location) (ls : List Location) (k : HandlerKind) (h' : RequestHandler) (m : Locations)
      (uri : Bytes) {h : RequestHandler}
      → kind_of l.handler_name ≡ some k
      → init_location init k l ≡ ok h'
      → IsSorted m
      → (find uri (insert l.uri h' m) ≡ some h)
        ⊎ ((find uri (insert l.uri h' m) ≡ none) × IsFirst init uri h ls)
      → (find uri m ≡ some h) ⊎ ((find uri m ≡ none) × IsFirst init uri h (l ∷ ls))
  added l ls k h' m uri {h} known g s (inl now) = elim (Option-cases (find uri m)) [
    | inr (v, there) ↦ inl (there ∙ sym (find-insert_present l.uri uri h' m s there) ∙ now)
    | inl absent ↦ elim (Bool-cases (equal l.uri uri)) [
      | inl same ↦ inr (
        absent,
        first l ls ((equal_iff l.uri uri).0 same) known (
            g
            ∙ ap ok
                (some-injective h' h (sym (find-insert_same l.uri uri h' m s absent same) ∙ now))),
      )
      | inr other ↦ absurd (cc (sym (find-insert_other l.uri uri h' m s absent other) ∙ now))
    ]
  ]
  added l ls k h' m uri known g s (inr (absent, r)) = elim (Option-cases (find uri m)) [
    | inr (v, there) ↦ absurd (cc (sym (find-insert_present l.uri uri h' m s there) ∙ absent))
    | inl missing ↦ elim (Bool-cases (equal l.uri uri)) [
      | inl same ↦ absurd (cc (sym (find-insert_same l.uri uri h' m s missing same) ∙ absent))
      | inr other ↦ inr (
        missing,
        later l ls (inr (λ e. absurd (ground (arith, equal_iff l.uri uri, e, other)))) r,
      )
    ]
  ]

  -- A handler found in the map was there before, or is that of the first location that has the uri
  add_locations-IsFirst :
      (ls : List Location) (m : Locations) (uri : Bytes) {m' : Locations} {h : RequestHandler}
      → IsSorted m
      → add_locations init ls m ≡ ok m'
      → find uri m' ≡ some h
      → (find uri m ≡ some h) ⊎ ((find uri m ≡ none) × IsFirst init uri h ls)
  unfolding add_locations add_request_handler
  add_locations-IsFirst [] m uri s e f = inl cc
  add_locations-IsFirst (l ∷ ls) m uri {m'} s e f = elim (Option-cases (kind_of l.handler_name)) [
    | inl unknown ↦ elim (add_locations-IsFirst ls m uri s (rw (unknown, add_locations) at e) f) [
      | inl before ↦ inl before
      | inr (absent, r) ↦ inr (absent, later l ls (inl unknown) r)
    ]
    | inr (k, known) ↦
        let (m₁, i, e') =
          >>=-eq-ok (add_request_handler init k l m) (add_locations init ls)
            (rw (known, add_locations) at e) in
        let (h', g, i') = >>=-eq-ok (init_location init k l) _ i in
        let is_m₁ : insert l.uri h' m ≡ m₁ = ok-injective _ _ i' in
        added l ls k h' m uri known g s (
          add_locations-IsFirst ls (insert l.uri h' m) uri (insert-IsSorted l.uri h' m s)
            (subst (λ (n : Locations). add_locations init ls n ≡ ok m') (sym is_m₁) e') f)
  ]

module _ (init : Inits) (l : Location) (ls : List Location) (m : Locations) where
  add_locations_unknown :
      kind_of l.handler_name ≡ none → add_locations init (l ∷ ls) m ≡ add_locations init ls m
  unfolding add_locations
  add_locations_unknown unknown = rw (unknown, add_locations)

  add_locations_known :
      {k : HandlerKind} {m' : Locations}
      → kind_of l.handler_name ≡ some k
      → add_locations init (l ∷ ls) m ≡ ok m'
      → (h : RequestHandler) × (init_location init k l ≡ ok h)
        × (add_locations init ls (insert l.uri h m) ≡ ok m')
  unfolding add_locations add_request_handler
  add_locations_known {k} {m'} known e =
      let (m₁, f, e') =
        >>=-eq-ok (add_request_handler init k l m) (add_locations init ls)
          (rw (known, add_locations) at e) in
      let (h, g, i) = >>=-eq-ok (init_location init k l) _ f in
      let is_m₁ : insert l.uri h m ≡ m₁ = ok-injective _ _ i in
      (h, g, subst (λ (n : Locations). add_locations init ls n ≡ ok m') (sym is_m₁) e')

module _ (init : Inits) (uri : Bytes) {h : RequestHandler} where
  add_locations-present :
      (ls : List Location) (m : Locations) {m' : Locations}
      → IsSorted m
      → add_locations init ls m ≡ ok m'
      → find uri m ≡ some h
      → find uri m' ≡ some h
  unfolding add_locations
  add_locations-present [] m s e f = cc
  add_locations-present (l ∷ ls) m s e f = elim (Option-cases (kind_of l.handler_name)) [
    | inl unknown ↦
        add_locations-present ls m s (sym (add_locations_unknown init l ls m unknown) ∙ e) f
    | inr (k, known) ↦
        let (h', g, e') = add_locations_known init l ls m known e in
        add_locations-present ls (insert l.uri h' m) (insert-IsSorted l.uri h' m s) e'
          (find-insert_present l.uri uri h' m s f)
  ]

  IsFirst-present :
      (ls : List Location) (m : Locations) {m' : Locations}
      → IsFirst init uri h ls
      → IsSorted m
      → add_locations init ls m ≡ ok m'
      → find uri m ≡ none
      → find uri m' ≡ some h
  IsFirst-present _ m (first l ls same known made) s e absent =
      let (h', g, e') = add_locations_known init l ls m known e in
      let is_h : h' ≡ h = ok-injective h' h (sym g ∙ made) in
      add_locations-present ls (insert l.uri h' m) (insert-IsSorted l.uri h' m s) e'
        (find-insert_same l.uri uri h' m s absent ((equal_iff l.uri uri).1 same) ∙ ap some is_h)
  IsFirst-present _ m (later l ls (inl unknown) r) s e absent =
      IsFirst-present ls m r s (sym (add_locations_unknown init l ls m unknown) ∙ e) absent
  IsFirst-present _ m (later l ls (inr other) r) s e absent =
      elim (Option-cases (kind_of l.handler_name)) [
        | inl unknown ↦
            IsFirst-present ls m r s (sym (add_locations_unknown init l ls m unknown) ∙ e) absent
        | inr (k, known) ↦
            let (h', g, e') = add_locations_known init l ls m known e in
            IsFirst-present ls (insert l.uri h' m) r (insert-IsSorted l.uri h' m s) e' (
              find-insert_other l.uri uri h' m s absent (elim (Bool-cases (equal l.uri uri)) [
                | inl same ↦ absurd (other ((equal_iff l.uri uri).0 same))
                | inr differs ↦ differs
              ]))
      ]

-- When a configuration gives the server its locations, the map is in the order of the keys, and it
-- has a handler under a uri exactly if that is the handler made of the first location that has the
-- uri, between the quotes, and a handler name that the server knows.
pub make_locations-IsFirst :
    (init : Inits) (config : NginxConfig) (uri : Bytes) (h : RequestHandler) {ls : List Location}
    {m : Locations}
    → get_location_result config ≡ ok ls
    → make_locations init config ≡ ok m
    → IsSorted m × ((find uri m ≡ some h) ↔ IsFirst init uri h ls)
unfolding make_locations find
make_locations-IsFirst init config uri h {ls} {m} e f =
    let made : add_locations init ls [] ≡ ok m = rw (e, make_locations) at f in
    (
      add_locations-IsSorted init ls [] tt made,
      (
        λ g. elim (add_locations-IsFirst init ls [] uri tt made g) [
          | inl before ↦ absurd (cc before)
          | inr (absent, r) ↦ r
        ],
        λ r. IsFirst-present init uri ls [] r tt made refl,
      ),
    )
