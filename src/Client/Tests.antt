-- ===== src/Client/Tests.antt =====
-- The theorems about the client at concrete inputs.
use rdapify.Client.Sample.{world, config, parts, idle}
use rdapify.Base.{ap, ℕ, ◌≡◌, refl, true, false, none, [], ◌∷◌, arith, any}
use rdapify.Base.Text.{text, text_eq, to_lowercase, lower, is_empty, eq_ignore_ascii_case}
use rdapify.Base.Result.{ok, err}
use rdapify.Types.Error.{http_status}
use rdapify.Core.Validation.{null}
use rdapify.Core.Fetcher.Attempt.Sound.{Checked}
use rdapify.Core.Fetcher.Config as Config
use rdapify.Core.Fetcher.Call as Call
use rdapify.Core.Fetcher.Sample as Sample
use rdapify.Security.Egress.{default_policy}
use rdapify.Security.Egress.Vetted.{Clean}
use rdapify.Cache.{MemoryCache, with_config, get_status}
use rdapify.Bootstrap.Resolver as Resolver
use rdapify.Bootstrap.Resolver.Gone.{NeedsFile, IsGone}
use rdapify.Bootstrap.Data as Data
use rdapify.Security.Egress as Egress
use rdapify.Security.Url as Url
use rdapify.Security.Ip as Ip
use rdapify.Net as Net
use rdapify.Cache as Cache
use rdapify.Base.Text.Keyed.{get}
use rdapify.Base.Text.Parts.{trim, trim_end_matches, split}
use rdapify.Client as Client
use rdapify.Client.{ClientConfig, Parts, QueryKind, State, World, cache_key, normalise_domain}
use rdapify.Client.Lookup.{fetch_with_cache, live, by_status, as_leader, rate_limit, fresh_from}
use rdapify.Client.Lookup.Answers.{Answered, fetch_with_cache-Answered}
use rdapify.Client.Lookup.Remembered.{live_is_remembered, live_404_is_remembered}
use rdapify.Client.Queries.{domain, nameserver}
use rdapify.Client.Queries.Spelling.{domain_ignores_case}
use rdapify.Client.Availability.{domain_available}
use rdapify.Client.Availability.Missing.{downloaded, bootstrap_404_is_available}
use rdapify.Client.Session as Session
use rdapify.Client.Session.{run}
use rdapify.Client.Session.Safe.{session-Clean, built_from}
use rdapify.Client.Session.Stored.{session-Checked}

-- Later, with what the first call left.
abbrev later : ℕ → State
later status = record idle {
  cache = (live (world status) parts (text "k") (text "u") QueryKind.domain true idle).1.cache;
}

built_client : Client.with_config config Sample.fresh ≡ ok (built_from config Sample.fresh)
unfolding Client.with_config Call.with_full_dependencies Config.validate Config.default_config
    Config.rate_out_of_range
built_client = refl

session-Clean_example :
    Clean
      (run
        (world 200)
        (built_from config Sample.fresh).0
        (Session.domain (text "a.de") ∷ Session.refresh 0 ∷ Session.clear ∷ [])
        (built_from config Sample.fresh).1).fetch.trace
session-Clean_example =
    session-Clean (world 200) config Sample.fresh (built_from config Sample.fresh).0
      (built_from config Sample.fresh).1
      (Session.domain (text "a.de") ∷ Session.refresh 0 ∷ Session.clear ∷ []) refl tt built_client

found_null :
    (fetch_with_cache
      (world 200)
      parts
      (text "k")
      (text "u")
      QueryKind.domain
      (run (world 200) parts (Session.clear ∷ []) idle)).0
    ≡ ok (null, false)
unfolding fetch_with_cache run Session.step Client.clear_cache by_status get_status get Cache.clear
    Cache.try_acquire_refresh with_config any as_leader rate_limit live
found_null = ap fresh_from Sample.served

session-Checked_example : Checked (world 200).fetch parts.fetcher null
unfolding with_config
session-Checked_example =
    session-Checked (world 200) parts (λ trace key c h. h) (Session.clear ∷ []) idle tt (text "k")
      (text "u") QueryKind.domain null false found_null

fetch_with_cache-Answered_example :
    Answered
      (world 404)
      parts
      (text "u")
      idle
      (fetch_with_cache (world 404) parts (text "k") (text "u") QueryKind.domain idle)
fetch_with_cache-Answered_example =
    fetch_with_cache-Answered (world 404) parts (text "k") (text "u") QueryKind.domain idle

live_is_remembered_example :
    ((fetch_with_cache (world 200) parts (text "k") (text "v") QueryKind.ip (later 200)).0
      ≡ ok (null, true))
    × ((fetch_with_cache (world 200) parts (text "k") (text "v") QueryKind.ip (later 200)).1.fetch
        ≡ (later 200).fetch)
live_is_remembered_example =
    live_is_remembered (world 200) parts (text "k") (text "u") (text "v") QueryKind.domain
      QueryKind.ip true (with_config 300) idle (later 200) null Sample.served refl (omega arith)
      refl

live_404_is_remembered_example :
    ((fetch_with_cache (world 404) parts (text "k") (text "v") QueryKind.ip (later 404)).0
      ≡ err (http_status 404 (text "v")))
    × ((fetch_with_cache (world 404) parts (text "k") (text "v") QueryKind.ip (later 404)).1.fetch
        ≡ (later 404).fetch)
live_404_is_remembered_example =
    live_404_is_remembered (world 404) parts (text "k") (text "u") (text "v") (text "u")
      QueryKind.domain QueryKind.ip true (with_config 300) idle (later 404) Sample.not_found_fresh
      refl (omega arith) refl

domain_ignores_case_example :
    (domain (world 200) parts (text "A.de") idle ≡ domain (world 200) parts (text "a.DE") idle)
    × (nameserver (world 200) parts (text "A.de") idle
        ≡ nameserver (world 200) parts (text "a.DE") idle)
unfolding to_lowercase lower
domain_ignores_case_example =
    domain_ignores_case (world 200) parts (text "A.de") (text "a.DE") idle refl

normal_name : normalise_domain (world 404).domain_to_ascii (text "a.de") ≡ ok (text "a.de")
unfolding normalise_domain is_empty to_lowercase trim_end_matches trim Client.is_ascii
normal_name = refl

needs_file : NeedsFile (Client.outside (world 404)) idle.bootstrap (text "a.de") idle.fetch.trace
unfolding Data.normalize_domain_input is_empty to_lowercase trim_end_matches trim
    Data.longest_suffix Data.probe split get Client.bootstrap_of Resolver.set_egress_timeout
    Resolver.set_secure_egress Resolver.new Resolver.build Resolver.read_cache_if_fresh lower
    text_eq Resolver.is_expired Client.outside
needs_file = record { normalized = text "a.de"; reads = refl; unserved = refl; uncached = refl }

file-IsGone : IsGone (Client.outside (world 404)) idle.bootstrap idle.fetch.trace
unfolding Client.bootstrap_of Resolver.set_egress_timeout Resolver.set_secure_egress Resolver.new
    Resolver.build text_eq lower Client.outside Resolver.send Egress.secure_request Url.validate_url
    Egress.resolve_host Egress.vet_host Url.validate_resolved_ips Ip.is_blocked_ip Ip.canonicalize
    Ip.is_broadcast Ip.is_cgnat_v4 Ip.is_link_local Ip.is_loopback Ip.is_private_ip Ip.is_private_v4
    Ip.is_special_use Ip.is_test_net_v4 Ip.is_unspecified Net.is_broadcast_v4 Net.is_link_local_v4
    Net.is_loopback_v4 Net.is_private_std_v4 Net.is_unspecified_v4 eq_ignore_ascii_case
    Egress.follow Egress.receive is_empty to_lowercase
file-IsGone = record {
  response = Sample.response 404;
  answer = refl;
  missing = refl;
  unsuccessful = refl;
}

bootstrap_404_is_available_example : domain_available (world 404) parts (text "a.de") idle ≡ (
  ok (record { domain = text "a.de"; available = true; expires_at = none }),
  downloaded (world 404) parts idle,
)
bootstrap_404_is_available_example =
    bootstrap_404_is_available (world 404) parts (text "a.de") (text "a.de") idle normal_name
      needs_file file-IsGone
