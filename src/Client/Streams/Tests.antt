-- ===== src/Client/Streams/Tests.antt =====
-- The theorem about the streams at a concrete input.
use rdapify.Base.{
  length, ◌≤◌, ℕ, ◌≡◌, refl, some, List, [], ◌∷◌, map, take, inl, ltb, lt→ltb, arith, Bool,
}
use rdapify.Base.Text.{Text, text}
use rdapify.Client.Queries as Queries
use rdapify.Client.Sample.{world, parts, idle}
use rdapify.Client.Session.{Op, run}
use rdapify.Client.Streams.{default_config, stream_domain, stream_ip, stream_asn, stream_nameserver}
use rdapify.Client.Streams.Order.{all_events, streams_lem}

-- The receiver is there for two events.
abbrev two_sent : ℕ → Bool
two_sent place = ltb place 2

abbrev names : List Text
names = text "a.de" ∷ text "7" ∷ text "::1" ∷ []

streams_lem_example :
    (stream_domain (world 200) parts two_sent 1 names default_config idle
      ≡ some (
        take 1 (all_events (Queries.domain (world 200) parts) names idle),
        run (world 200) parts (map Op.domain (take 3 names)) idle,
      ))
    × (stream_ip (world 200) parts two_sent 1 names default_config idle
        ≡ some (
          take 1 (all_events (Queries.ip (world 200) parts) names idle),
          run (world 200) parts (map Op.ip (take 3 names)) idle,
        ))
    × (stream_asn (world 200) parts two_sent 1 names default_config idle
        ≡ some (
          take 1 (all_events (Queries.asn (world 200) parts) names idle),
          run (world 200) parts (map Op.asn (take 3 names)) idle,
        ))
    × (stream_nameserver (world 200) parts two_sent 1 names default_config idle
        ≡ some (
          take 1 (all_events (Queries.nameserver (world 200) parts) names idle),
          run (world 200) parts (map Op.nameserver (take 3 names)) idle,
        ))
    × (length (take 3 names) ≤ 34)
streams_lem_example = streams_lem (world 200) parts two_sent 1 1 names default_config idle (record {
  holds = omega arith;
  fits = omega arith;
  there = λ i le. lt→ltb i 2 le;
  gone = inl refl;
})
