-- ===== src/Client/Session/Safe.antt =====
-- crates/rdapify-client/src/lib.rs: what a client with the guard on sends, over a whole session.
use rdapify.Base.{ℕ, ◌≡◌, subst, ◌∙◌, true, Option, none, some, List, [], ◌∷◌, inl, inr, arith}
use rdapify.Base.Text.{Text}
use rdapify.Base.Result.{ok, Result-cases}
use rdapify.Net.{IpAddr}
use rdapify.Net.IpAddr.{v4, v6}
use rdapify.Security.Guard
use rdapify.Security.Egress.{default_policy}
use rdapify.Security.Egress.Vetted.{Clean}
use rdapify.Bootstrap.Resolver as Resolver
use rdapify.Bootstrap.Resolver.Egress.{
  for_domain-Clean, for_ipv4-Clean, for_ipv6-Clean, for_asn-Clean,
}
use rdapify.Bootstrap.Resolver.Posture.{
  for_domain_posture, for_ipv4_posture, for_ipv6_posture, for_asn_posture,
}
use rdapify.Core.Fetcher.Attempt as Attempt
use rdapify.Core.Fetcher.Config as Config
use rdapify.Core.Fetcher.Call.{with_full_dependencies}
use rdapify.Core.Fetcher.Call.Checked.{fetch-Clean}
use rdapify.Client.{
  Parts, State, World, ClientConfig, with_config, merged, bootstrap_of, cache_of, outside,
  clear_cache,
}
use rdapify.Client.Lookup.{drop_guard}
use rdapify.Client.Lookup.Keeps.{Steps, fetch_with_cache_keeps, run_refresh_keeps}
use rdapify.Client.Queries.{for_domain, for_addr, resolved}
use rdapify.Client.Session.{Op, run, run_keeps, pick, refreshed}

-- What keeps a session safe.
pub record Secure (s : State) : Type 0 where
  pub posture : s.bootstrap.secure_egress ≡ true
  pub clean : Clean s.fetch.trace

module _ (w : World) (p : Parts) (on : Guard.is_enabled p.fetcher.ssrf ≡ true) where
  steps-Secure : Steps w p Secure
  unfolding drop_guard
  steps-Secure = record {
    by_status_of = λ key c s i. record { posture = i.posture; clean = i.clean };
    by_claim = λ key c s i. record { posture = i.posture; clean = i.clean };
    by_wait = λ key c s i. record { posture = i.posture; clean = i.clean };
    by_drop = λ key s i. record { posture = i.posture; clean = i.clean };
    by_fetch = λ key url kind s i. record {
      posture = i.posture;
      clean = fetch-Clean w.fetch p.fetcher url s.fetch on i.clean;
    };
    by_refresh = λ key url kind s i. record {
      posture = i.posture;
      clean = fetch-Clean w.fetch p.fetcher url s.fetch on i.clean;
    };
    by_spawn = λ tasks s i. record { posture = i.posture; clean = i.clean };
  }

  for_domain-Secure : (name : Text) (s : State) → Secure s → Secure (for_domain w p name s).1
  for_domain-Secure name s i = record {
    posture = for_domain_posture (outside w) s.bootstrap name s.fetch.trace ∙ i.posture;
    clean = for_domain-Clean (outside w) s.bootstrap name s.fetch.trace i.posture i.clean;
  }

  for_addr-Secure :
      (typed : Text) (a : IpAddr) (s : State) → Secure s → Secure (for_addr w p typed a s).1
  unfolding for_addr
  for_addr-Secure typed (v4 a) s i = record {
    posture = for_ipv4_posture (outside w) s.bootstrap typed s.fetch.trace ∙ i.posture;
    clean = for_ipv4-Clean (outside w) s.bootstrap typed s.fetch.trace i.posture i.clean;
  }
  for_addr-Secure typed (v6 a) s i = record {
    posture = for_ipv6_posture (outside w) s.bootstrap typed s.fetch.trace ∙ i.posture;
    clean = for_ipv6-Clean (outside w) s.bootstrap typed s.fetch.trace i.posture i.clean;
  }

  for_asn-Secure :
      (n : ℕ) (s : State)
      → Secure s
      → Secure (resolved s (Resolver.for_asn (outside w) s.bootstrap n s.fetch.trace)).1
  for_asn-Secure n s i = record {
    posture = for_asn_posture (outside w) s.bootstrap n s.fetch.trace ∙ i.posture;
    clean = for_asn-Clean (outside w) s.bootstrap n s.fetch.trace i.posture i.clean;
  }

  refreshed-Secure : (n : ℕ) (s : State) → Secure s → Secure (refreshed w p (pick n s.spawned) s)
  refreshed-Secure n s i = at (pick n s.spawned)
    where
      at : (o : Option (_ × _)) → Secure (refreshed w p o s)
      at none = i
      at (some (task, others)) =
          run_refresh_keeps w p Secure steps-Secure task (record s { spawned = others })
            (record { posture = i.posture; clean = i.clean })

  clear_cache-Secure : (s : State) → Secure s → Secure (clear_cache s)
  unfolding clear_cache Resolver.clear_cache
  clear_cache-Secure s i = record { posture = i.posture; clean = i.clean }

  run-Secure : (ops : List Op) (s : State) → Secure s → Secure (run w p ops s)
  run-Secure =
      run_keeps w p Secure for_domain-Secure for_addr-Secure for_asn-Secure
        (fetch_with_cache_keeps w p Secure steps-Secure) refreshed-Secure clear_cache-Secure

bootstrap_of_posture :
    (config : ClientConfig)
    → config.ssrf.enabled ≡ true
    → (bootstrap_of config).secure_egress ≡ true
unfolding bootstrap_of Resolver.set_egress_timeout Resolver.set_secure_egress
    Resolver.set_custom_servers
bootstrap_of_posture config on = at config.custom_bootstrap_servers
  where
    at :
        (servers : List (Text × Text))
        → (bootstrap_of (record config { custom_bootstrap_servers = servers })).secure_egress ≡ true
    at [] = on
    at (x ∷ xs) = on

-- What `with_config` answers, if the settings are accepted.
abbrev pub built_from : ClientConfig → Attempt.State → Parts × State
built_from config idle = (
  record {
    fetcher = record {
      ssrf = config.ssrf;
      config = merged config;
      egress_policy = record default_policy { timeout = config.fetcher.timeout };
    };
    rate_limiter = config.rate_limit;
  },
  record {
    fetch = idle;
    bootstrap = bootstrap_of config;
    cache = cache_of config.cache;
    spawned = [];
  },
)

built_from_lem :
    (config : ClientConfig) (idle : Attempt.State) (o : Parts × State)
    → with_config config idle ≡ ok o
    → built_from config idle ≡ o
unfolding with_config with_full_dependencies
built_from_lem config idle o built = elim (Result-cases (Config.validate (merged config))) [
  | inr (x, e) ↦ absurd (ground arith)
  | inl (_, e) ↦ ground arith
]

-- From a clean trace, a client as `with_config` builds it sends requests through the security pipeline
-- alone, if its guard is enabled: over any sequence of queries, background refreshes and clearings of the
-- caches, each request of a query and of a bootstrap download goes to a safe URL, directly after a lookup
-- of the URL's host text, if it has one, that gave an address and no blocked one.
pub session-Clean :
    (w : World) (config : ClientConfig) (idle : Attempt.State) (p : Parts) (s : State)
    (ops : List Op)
    → config.ssrf.enabled ≡ true
    → Clean idle.trace
    → with_config config idle ≡ ok (p, s)
    → Clean (run w p ops s).fetch.trace
unfolding Guard.is_enabled
session-Clean w config idle p s ops on clean built =
    let (parts, start) = built_from config idle in
    subst (λ (o : Parts × State). Clean (run w o.0 ops o.1).fetch.trace)
      (built_from_lem config idle (p, s) built)
      (run-Secure w parts on ops start
        (record { posture = bootstrap_of_posture config on; clean = clean })).clean
