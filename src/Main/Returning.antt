-- ===== src/Main/Returning.antt =====
-- What `main` returns.
use web_server_development.Prelude.{
  ℕ, refl, ok, throws, ◌≢◌, ◌↔◌, >>=-eq-ok, List, [], ◌∷◌, ◌++◌, none, some, ◌≡◌, Fault, ap, ◌∙◌,
  invalid_argument, out_of_range, undefined, system_error, Option-cases, Result-cases, inl, inr,
  ◌⊎◌, Bool-cases,
}
use web_server_development.Text.{Bytes, codes, equal}
use web_server_development.Text.Laws.{equal_iff}
use web_server_development.World.{World}
use web_server_development.Log.{log_trace_file}
use web_server_development.Config.{NginxConfig, parse_port, get_location_result}
use web_server_development.Config.Parser.{
  Outcome, accepted, rejected, crashed, unfinished, parse_file,
}
use web_server_development.Server.{Inits, add_locations, make_locations}
use web_server_development.Main.{
  Platform, returns, to_short, to_port, caught, faulted, started, start, choose_port, begun, main,
}

abbrev pub denied : Bytes
denied = codes "bind: Permission denied"

module _ (w : World) (init : Inits) (sys : Platform) where
  -- The construction of the server, for an accepted configuration, throws what is not undefined and
  -- has this message: for its port, for the port that the acceptor is to take, or for a location.
  pub data Fails (config : NginxConfig) (what : Bytes) : Type 0 where
    of_port :
        (x : Fault)
        → parse_port config ≡ throws x
        → x ≢ undefined
        → sys.what x ≡ what
        → Fails config what
    of_bind :
        (port : ℕ)
        → parse_port config ≡ ok (some port)
        → sys.bind (to_port (to_short port)) ≡ some what
        → Fails config what
    of_locations :
        (port : ℕ) (x : Fault)
        → parse_port config ≡ ok (some port)
        → sys.bind (to_port (to_short port)) ≡ none
        → make_locations init config ≡ throws x
        → x ≢ undefined
        → sys.what x ≡ what
        → Fails config what

  -- The exception of this run has the message of a forbidden port.
  pub record IsDenied (argv : List Bytes) : Type 0 where
    pub program : Bytes
    pub config_file : Bytes
    pub config : NginxConfig
    pub argv_is : argv ≡ program ∷ config_file ∷ []
    pub config_is : parse_file w config_file ≡ accepted config
    pub fails : Fails config denied

  -- It is the code of failure, or that of success for the reason `D`.
  abbrev Returned : Type 0 → ℕ → Type 0
  Returned D n = (n ≡ 1) ⊎ ((n ≡ 0) × D)

  module _ {D : Type 0} where
    caught-returns :
        (log : List Bytes) (what : Bytes) (n : ℕ)
        → (what ≡ denied → D)
        → (caught log what).ending ≡ returns n
        → Returned D n
    unfolding caught
    caught-returns log what n why e = elim (Bool-cases (equal what denied)) [
      | inl same ↦ inr (cc (rw same at e), why ((equal_iff what denied).0 same))
      | inr other ↦ inl (cc (rw other at e))
    ]

    faulted-returns :
        (log : List Bytes) (x : Fault) (n : ℕ)
        → (x ≢ undefined → sys.what x ≡ denied → D)
        → (faulted w init sys log x).ending ≡ returns n
        → Returned D n
    unfolding faulted
    faulted-returns log invalid_argument n why e =
        caught-returns log (sys.what invalid_argument) n (why (λ u. cc)) e
    faulted-returns log out_of_range n why e =
        caught-returns log (sys.what out_of_range) n (why (λ u. cc)) e
    faulted-returns log system_error n why e =
        caught-returns log (sys.what system_error) n (why (λ u. cc)) e
    faulted-returns log undefined n why e = absurd (cc e)

    start-returns :
        (log : List Bytes) (port : ℕ) (config : NginxConfig) (n : ℕ)
        → (Fails config denied → D)
        → parse_port config ≡ ok (some port)
        → (start w init sys log port config).ending ≡ returns n
        → Returned D n
    unfolding start started make_locations
    start-returns log port config n why named e =
        elim (Option-cases (sys.bind (to_port (to_short port)))) [
          | inr (what, taken) ↦
              caught-returns log what n (λ same. why (of_bind port named (taken ∙ ap some same)))
                (rw (taken, start) at e)
          | inl free ↦ elim (Result-cases (make_locations init config)) [
            | inl (x, broken) ↦
                faulted-returns log x n
                  (λ thrown same. why (of_locations port x named free broken thrown same))
                  (rw broken at (rw (free, start) at e))
            | inr (m, made) ↦
                let (ls, got, filled) =
                  >>=-eq-ok (get_location_result config) (λ ls. add_locations init ls []) made in
                absurd (cc (rw (got, started) at (rw made at (rw (free, start) at e))))
          ]
        ]

    choose_port-returns :
        (log : List Bytes) (config : NginxConfig) (n : ℕ)
        → (Fails config denied → D)
        → (choose_port w init sys log config).ending ≡ returns n
        → Returned D n
    unfolding choose_port
    choose_port-returns log config n why e = elim (Result-cases (parse_port config)) [
      | inl (x, broken) ↦
          faulted-returns log x n (λ thrown same. why (of_port x broken thrown same))
            (rw (broken, choose_port) at e)
      | inr (none, missing) ↦ inl (cc (rw (missing, choose_port) at e))
      | inr (some port, named) ↦
          start-returns _ port config n why named (rw (named, choose_port) at e)
    ]

  file-returns :
      (program config_file : Bytes) (n : ℕ) (o : Outcome)
      → parse_file w config_file ≡ o
      → (main w init sys (program ∷ config_file ∷ [])).ending ≡ returns n
      → (n ≡ 1) ⊎ ((n ≡ 0) × IsDenied (program ∷ config_file ∷ []))
  unfolding main
  file-returns program config_file n rejected parsed e = inl (cc (rw (parsed, main) at e))
  file-returns program config_file n crashed parsed e = absurd (cc (rw (parsed, main) at e))
  file-returns program config_file n unfinished parsed e = absurd (cc (rw (parsed, main) at e))
  file-returns program config_file n (accepted config) parsed e =
      choose_port-returns (begun w init sys) config n
        (λ f. record {
          program = program;
          config_file = config_file;
          config = config;
          argv_is = refl;
          config_is = parsed;
          fails = f;
        })
        (rw (parsed, main) at e)

  returns-cases :
      (argv : List Bytes) (n : ℕ)
      → (main w init sys argv).ending ≡ returns n
      → (n ≡ 1) ⊎ ((n ≡ 0) × IsDenied argv)
  unfolding main
  returns-cases [] n e = inl (cc e)
  returns-cases (program ∷ []) n e = inl (cc e)
  returns-cases (program ∷ config_file ∷ []) n e = file-returns program config_file n _ refl e
  returns-cases (program ∷ config_file ∷ third ∷ argv) n e = inl (cc e)

  -- The other way: such an exception makes it 0.
  caught-denied : (log : List Bytes) → (caught log denied).ending ≡ returns 0
  unfolding caught
  caught-denied log = refl

  faulted-denied :
      (log : List Bytes) (x : Fault)
      → x ≢ undefined
      → sys.what x ≡ denied
      → (faulted w init sys log x).ending ≡ returns 0
  unfolding faulted
  faulted-denied log invalid_argument thrown same = rw (same, faulted) (caught-denied log)
  faulted-denied log out_of_range thrown same = rw (same, faulted) (caught-denied log)
  faulted-denied log system_error thrown same = rw (same, faulted) (caught-denied log)
  faulted-denied log undefined thrown same = absurd (thrown refl)

  abbrev begins : List Bytes → List Bytes
  begins log = log ++ log_trace_file (codes "server config parsing successed") ∷ []

  Fails-denied :
      (log : List Bytes) (config : NginxConfig)
      → Fails config denied
      → (choose_port w init sys log config).ending ≡ returns 0
  unfolding choose_port start
  Fails-denied log config (of_port x broken thrown same) =
      rw (broken, choose_port) (faulted-denied log x thrown same)
  Fails-denied log config (of_bind port named taken) =
      rw (named, choose_port) (rw (taken, start) (caught-denied (begins log)))
  Fails-denied log config (of_locations port x named free broken thrown same) =
      rw (named, choose_port)
        (rw (free, start) (rw broken (faulted-denied (begins log) x thrown same)))

  IsDenied-returns : (argv : List Bytes) → IsDenied argv → (main w init sys argv).ending ≡ returns 0
  unfolding main
  IsDenied-returns argv d =
      rw d.argv_is (rw (d.config_is, main) (Fails-denied (begun w init sys) d.config d.fails))

  -- When the program returns without serving, it returns 1, the code of failure, or 0. It returns 0
  -- exactly if its configuration is accepted and then an exception, of the port that it names, of
  -- the acceptor or of a location, has the message of a forbidden port: then nothing is served.
  pub main-returns :
      (argv : List Bytes) (n : ℕ)
      → (main w init sys argv).ending ≡ returns n
      → ((n ≡ 1) ⊎ (n ≡ 0)) × ((n ≡ 0) ↔ IsDenied argv)
  main-returns argv n e = elim (returns-cases argv n e) [
    | inl fails_ ↦
        (inl fails_, (λ zero_. absurd (cc (fails_, zero_)), λ d. cc (e, IsDenied-returns argv d)))
    | inr (zero_, d) ↦ (inr zero_, (λ z. d, λ d'. zero_))
  ]
