-- ===== src/Main/Starting.antt =====
-- When `main` serves, and on which port, and when it returns.
use web_server_development.Prelude.{
  ℕ, ◌^◌, ◌<◌, List, [], ◌∷◌, none, some, ◌≡◌, refl, sym, ◌∙◌, ap, arith, ok, Fault,
  invalid_argument, out_of_range, undefined, system_error, ◌≢◌, ◌↔◌, Option-cases, Result-cases,
  inl, inr, Bool-cases, subst, >>=-eq-ok,
}
use web_server_development.Text.{Bytes, codes, equal}
use web_server_development.World.{World}
use web_server_development.Config.{NginxConfig, parse_port, get_location_result}
use web_server_development.Config.Parser.{
  Outcome, accepted, rejected, crashed, unfinished, parse_file,
}
use web_server_development.Config.Port.{parse_port-bound}
use web_server_development.Session.Routing.{Locations}
use web_server_development.Server.{Inits, make_locations, add_locations}
use web_server_development.Main.{
  Platform, serves, to_short, to_port, caught, faulted, started, start, choose_port, begun, main,
}

-- A number of 16 bits survives the conversions to `short` and back.
to_port-to_short : (n : ℕ) → n < 2 ^ 16 → to_port (to_short n) ≡ n
unfolding to_port to_short
to_port-to_short n h = ground arith

serves-injective : (a b : ℕ) (m n : Locations) → serves a m ≡ serves b n → (a ≡ b) × (m ≡ n)
serves-injective a b m n e = ((cc), (cc))

module _ (w : World) (init : Inits) (sys : Platform) where
  -- The configuration names a port that is free, and its locations can be made.
  pub record IsServed (config : NginxConfig) (port : ℕ) (m : Locations) : Type 0 where
    pub port_is : parse_port config ≡ ok (some port)
    pub bound_is : sys.bind port ≡ none
    pub locations_is : make_locations init config ≡ ok m

  caught-serves :
      (log : List Bytes) (what : Bytes) {p : ℕ} {m : Locations}
      → (caught log what).ending ≢ serves p m
  unfolding caught
  caught-serves log what e = elim (Bool-cases (equal what (codes "bind: Permission denied"))) [
    | inl denied ↦ absurd (cc (rw denied at e))
    | inr other ↦ absurd (cc (rw other at e))
  ]

  faulted-serves :
      (log : List Bytes) (fault : Fault) {p : ℕ} {m : Locations}
      → (faulted w init sys log fault).ending ≢ serves p m
  unfolding faulted
  faulted-serves log invalid_argument e = caught-serves log (sys.what invalid_argument) e
  faulted-serves log out_of_range e = caught-serves log (sys.what out_of_range) e
  faulted-serves log system_error e = caught-serves log (sys.what system_error) e
  faulted-serves log undefined e = absurd (cc e)

  start-serves :
      (log : List Bytes) (port : ℕ) (config : NginxConfig) {p : ℕ} {m : Locations}
      → port < 2 ^ 16
      → (start w init sys log port config).ending ≡ serves p m
      → (port ≡ p) × (sys.bind port ≡ none) × (make_locations init config ≡ ok m)
  unfolding start started
  start-serves log port config {p} {m} small e =
      let same = to_port-to_short port small in
      elim (Option-cases (sys.bind (to_port (to_short port)))) [
        | inr (what, taken) ↦ absurd (caught-serves log what (rw (taken, start) at e))
        | inl free ↦ elim (Result-cases (make_locations init config)) [
          | inl (x, broken) ↦ absurd (faulted-serves log x (rw broken at (rw (free, start) at e)))
          | inr (m', made) ↦ elim (Result-cases (get_location_result config)) [
            | inl (x, broken) ↦ absurd (
                faulted-serves log x (rw (broken, started) at (rw made at (rw (free, start) at e))))
            | inr (ls, got) ↦
                let (at, built) =
                  serves-injective (to_port (to_short port)) p m' m
                    (rw (got, started) at (rw made at (rw (free, start) at e))) in
                (sym same ∙ at, subst (λ (k : ℕ). sys.bind k ≡ none) same free, made ∙ ap ok built)
          ]
        ]
      ]

  serves-start :
      (log : List Bytes) (config : NginxConfig) {p : ℕ} {m : Locations}
      → p < 2 ^ 16
      → IsServed config p m
      → (start w init sys log p config).ending ≡ serves p m
  unfolding start started make_locations
  serves-start log config {p} {m} small s =
      let (ls, got, e) =
        >>=-eq-ok (get_location_result config) (λ ls. add_locations init ls []) s.locations_is in
      rw (to_port-to_short p small, start)
        (rw s.bound_is (
          rw s.locations_is
            (rw (got, started) (ap (λ (k : ℕ). serves k m) (to_port-to_short p small)))))

  choose_port-serves :
      (log : List Bytes) (config : NginxConfig) (p : ℕ) (m : Locations)
      → ((choose_port w init sys log config).ending ≡ serves p m) ↔ IsServed config p m
  unfolding choose_port
  choose_port-serves log config p m = (there, back)
    where
      there : (choose_port w init sys log config).ending ≡ serves p m → IsServed config p m
      there e = elim (Result-cases (parse_port config)) [
        | inl (x, broken) ↦ absurd (faulted-serves log x (rw (broken, choose_port) at e))
        | inr (none, missing) ↦ absurd (cc (rw (missing, choose_port) at e))
        | inr (some port, named) ↦
            let (same, free, made) =
              start-serves _ port config (omega (arith, parse_port-bound config named))
                (rw (named, choose_port) at e) in
            record {
              port_is = named ∙ ap (λ (k : ℕ). ok (some k)) same;
              bound_is = subst (λ (k : ℕ). sys.bind k ≡ none) same free;
              locations_is = made;
            }
      ]

      back : IsServed config p m → (choose_port w init sys log config).ending ≡ serves p m
      back s =
          rw (s.port_is, choose_port)
            (serves-start _ config (omega (arith, parse_port-bound config s.port_is)) s)

  -- What `main` is given makes it serve.
  pub record Serves (argv : List Bytes) (port : ℕ) (m : Locations) : Type 0 where
    pub program : Bytes
    pub config_file : Bytes
    pub config : NginxConfig
    pub argv_is : argv ≡ program ∷ config_file ∷ []
    pub config_is : parse_file w config_file ≡ accepted config
    pub is_served : IsServed config port m

  file-serves :
      (program config_file : Bytes) (p : ℕ) (m : Locations) (o : Outcome)
      → parse_file w config_file ≡ o
      → (main w init sys (program ∷ config_file ∷ [])).ending ≡ serves p m
      → Serves (program ∷ config_file ∷ []) p m
  unfolding main
  file-serves program config_file p m rejected parsed e = absurd (cc (rw (parsed, main) at e))
  file-serves program config_file p m crashed parsed e = absurd (cc (rw (parsed, main) at e))
  file-serves program config_file p m unfinished parsed e = absurd (cc (rw (parsed, main) at e))
  file-serves program config_file p m (accepted config) parsed e = record {
    program = program;
    config_file = config_file;
    config = config;
    argv_is = refl;
    config_is = parsed;
    is_served = (choose_port-serves (begun w init sys) config p m).0 (rw (parsed, main) at e);
  }

  -- The program serves a port exactly if it is given one argument, the name of a file that the
  -- parser accepts, the file states the port first, the port is free, and every location can be
  -- made. The conversions of the port to `short` and back do not change it.
  pub main-Serves :
      (argv : List Bytes) (p : ℕ) (m : Locations)
      → ((main w init sys argv).ending ≡ serves p m) ↔ Serves argv p m
  unfolding main
  main-Serves argv p m = (there argv, back)
    where
      there : (argv : List Bytes) → (main w init sys argv).ending ≡ serves p m → Serves argv p m
      there [] e = absurd (cc e)
      there (program ∷ []) e = absurd (cc e)
      there (program ∷ config_file ∷ []) e = file-serves program config_file p m _ refl e
      there (program ∷ config_file ∷ third ∷ argv) e = absurd (cc e)

      back : Serves argv p m → (main w init sys argv).ending ≡ serves p m
      back s = rw s.argv_is (
          rw (s.config_is, main)
            ((choose_port-serves (begun w init sys) s.config p m).1 s.is_served))
