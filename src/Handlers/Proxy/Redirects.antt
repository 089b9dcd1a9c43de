-- ===== src/Handlers/Proxy/Redirects.antt =====
-- How the redirections that `send_request` follows end.
use web_server_development.Prelude.{
  ℕ, zero, suc, ◌<◌, some, ◌≡◌, refl, ◌∙◌, arith, ◌↔◌, Result, ◌⊎◌, inl, inr,
}
use web_server_development.Text.{Bytes}
use web_server_development.Request.{Request}
use web_server_development.Response.{Response}
use web_server_development.World.{World}
use web_server_development.Handlers.Proxy.Exchange.{
  Network, Step, answers, redirects, exchange_once, send_request,
}

pub Step-cases :
    (s : Step)
    → ((r : Result Response) × (s ≡ answers r))
      ⊎ ((q : Request) × ((host : Bytes) × (s ≡ redirects q host)))
Step-cases (answers r) = inl (r, refl)
Step-cases (redirects q host) = inr (q, (host, refl))

module _ (w : World) (net : Network) (prefix port : Bytes) where
  -- `Followed n q host r`: the request `q` to `host` is answered by `r` behind `n` redirections.
  data Followed : ℕ → Request → Bytes → Result Response → Type 0 where
    answered :
        {q : Request} {host : Bytes} {r : Result Response}
        → exchange_once w net prefix port q host ≡ answers r
        → Followed 0 q host r
    moved :
        {n : ℕ} {q q' : Request} {host host' : Bytes} {r : Result Response}
        → exchange_once w net prefix port q host ≡ redirects q' host'
        → Followed n q' host' r
        → Followed (suc n) q host r

  Followed-fuel :
      (n fuel : ℕ) (q : Request) (host : Bytes) (r : Result Response)
      → Followed n q host r
      → n < fuel
      → send_request w net prefix port fuel q host ≡ some r
  unfolding send_request
  Followed-fuel n zero q host r f h = absurd (omega arith)
  Followed-fuel zero (suc fuel) q host r (answered e) h = rw (e, send_request) refl
  Followed-fuel (suc n) (suc fuel) q host r (moved {q' = q'} {host' = host'} e f) h =
      rw (e, send_request) (Followed-fuel n fuel q' host' r f (omega arith))

  fuel-Followed :
      (fuel : ℕ) (q : Request) (host : Bytes) (r : Result Response)
      → send_request w net prefix port fuel q host ≡ some r
      → (n : ℕ) × (n < fuel) × Followed n q host r
  unfolding send_request
  fuel-Followed zero q host r e = absurd (cc e)
  fuel-Followed (suc fuel) q host r e = elim (Step-cases (exchange_once w net prefix port q host)) [
    | inl (r', ends) ↦ (0, omega arith, answered (ends ∙ answer r' (rw (ends, send_request) at e)))
    | inr (q', (host', moves)) ↦
        let (n, less, f) = fuel-Followed fuel q' host' r (rw (moves, send_request) at e) in
        (suc n, omega arith, moved moves f)
  ]
    where
      answer : (r' : Result Response) → some r' ≡ some r → answers r' ≡ answers r
      answer r' e = cc

  -- With any fuel, the proxy comes to a response or a fault exactly if the redirections end with
  -- it, and they are fewer than the fuel.
  send_request-Followed :
      (fuel : ℕ) (q : Request) (host : Bytes) (r : Result Response)
      → (send_request w net prefix port fuel q host ≡ some r)
        ↔ ((n : ℕ) × (n < fuel) × Followed n q host r)
  send_request-Followed fuel q host r =
      (fuel-Followed fuel q host r, λ (n, less, f). Followed-fuel n fuel q host r f less)
