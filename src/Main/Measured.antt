-- ===== src/Main/Measured.antt =====
-- What a started server answers.
use web_server_development.Prelude.{ℕ, List, [], ◌∷◌, ◌≡◌, subst, ok, >>=-eq-ok, All, ok-injective}
use web_server_development.Text.{Bytes}
use web_server_development.Request.{Request}
use web_server_development.Response.{Response}
use web_server_development.Response.Laws.{HasLength}
use web_server_development.World.{World}
use web_server_development.Log.{Remote}
use web_server_development.Handlers.Proxy.Exchange.{Network}
use web_server_development.Session.Routing.{Locations, Shared, process_req}
use web_server_development.Session.Lengths.{LocationMeasured, EntryMeasured, process_req-Measured}
use web_server_development.Session.Memo.{process_all}
use web_server_development.Server.{inits}
use web_server_development.Server.Measured.{make_locations-Measured}
use web_server_development.Main.{Platform, serves, main}
use web_server_development.Main.Starting.{main-Serves}

process_all-HasLength :
    (locations : Locations) (qs : List (Remote × Request)) (s : Shared) {rs : List Response}
    {s' : Shared}
    → All LocationMeasured locations
    → All EntryMeasured s.cache_query
    → process_all locations qs s ≡ ok (rs, s')
    → All HasLength rs
unfolding process_all
process_all-HasLength locations [] s m a e =
    subst (λ (out : List Response × Shared). All HasLength out.0) (ok-injective _ _ e) tt
process_all-HasLength locations ((remote, q) ∷ qs) s m a e =
    let ((r, s₁), here, e') = >>=-eq-ok (process_req locations remote q s) _ e in
    let ((rs, s₂), later, e'') = >>=-eq-ok (process_all locations qs s₁) _ e' in
    let (long, kept) = process_req-Measured locations remote q s m a here in
    subst (λ (out : List Response × Shared). All HasLength out.0) (ok-injective _ _ e'')
      (long, process_all-HasLength locations qs s₁ m kept later)

-- From `main` on: when the program serves, every response to any sequence of requests, from any
-- peers, cached or not, by whichever handlers its configuration names, and whatever they find on the
-- machine at each call, tells the length of its body. The cache is empty at the start.
pub main-HasLength :
    (w : World) (net : World → Network) (depth : ℕ) (sys : Platform) (argv : List Bytes)
    (qs : List (Remote × Request)) (log : List Bytes) (machines : ℕ → World) {p : ℕ} {m : Locations}
    {rs : List Response} {s : Shared}
    → (main w (inits net depth) sys argv).ending ≡ serves p m
    → process_all m qs (record { cache_query = []; log = log; machines = machines }) ≡ ok (rs, s)
    → All HasLength rs
main-HasLength w net depth sys argv qs log machines {p} {m} e run =
    let started = (main-Serves w (inits net depth) sys argv p m).0 e in
    process_all-HasLength m qs (record { cache_query = []; log = log; machines = machines })
      (make_locations-Measured net depth started.config started.is_served.locations_is) tt run
