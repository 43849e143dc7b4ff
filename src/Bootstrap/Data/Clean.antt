-- ===== src/Bootstrap/Data/Clean.antt =====
-- What the servers of a parsed file look like.
use rdapify.Base.{
  ◌≡◌, ◌≢◌, subst, ◌==◌, false, Option, some, List, [], ◌∷◌, ◌++◌, All, All-append, find, arith,
  Bool-cases, Option-cases, inl, inr, if-both,
}
use rdapify.Base.Text.{Text, text_eq, is_empty, to_lowercase}
use rdapify.Base.Text.Parts.{EndsClean, trim_end_by-EndsClean, trim_end_matches}
use rdapify.Base.Text.Keyed.{get, put}
use rdapify.Bootstrap.Data.{
  BootstrapFile, IpNetwork, ResourceData, dns, ip, asn, Resource, dns_file, ipv4_file, ipv6_file,
  asn_file, no_slash, first_server, usable, or_default, add_patterns, parse_dns, entries,
  parse_services, parse_asn_range, parse,
}

-- A server URL that a path can be put behind.
pub record IsBase (server : Text) : Type 0 where
  pub some_text : is_empty server ≡ false
  pub no_slash_at_end : EndsClean (λ d. d == 47) server

no_slash-IsBase : (s : Text) → is_empty (no_slash s) ≡ false → IsBase (no_slash s)
unfolding trim_end_matches
no_slash-IsBase s h = record {
  some_text = h;
  no_slash_at_end = trim_end_by-EndsClean (λ d. d == 47) s;
}

abbrev pub BaseOf : {A : Type 0} → A × Text → Type 0
BaseOf e = IsBase e.1

-- A list of servers, not empty, of which each is a base.
abbrev pub Servers : List Text → Type 0
Servers servers = (servers ≢ []) × All IsBase servers

abbrev ServersOf : Text × List Text → Type 0
ServersOf e = Servers e.1

-- The servers of a parsed file.
abbrev pub Bases : ResourceData → Type 0
Bases (dns index) = All ServersOf index
Bases (ip nets) = All BaseOf nets
Bases (asn ranges) = All BaseOf ranges

usable-IsBase : (servers : List Text) → All IsBase (usable servers)
unfolding usable
usable-IsBase [] = tt
usable-IsBase (s ∷ servers) =
    if-both (All IsBase) (is_empty (no_slash s)) _ _ (λ _. usable-IsBase servers)
      (λ e. (no_slash-IsBase s e, usable-IsBase servers))

put-ServersOf :
    (k : Text) (servers : List Text) (index : List (Text × List Text))
    → Servers servers
    → All ServersOf index
    → All ServersOf (put k servers index)
unfolding put
put-ServersOf k servers [] h a = (h, tt)
put-ServersOf k servers ((j, old) ∷ index) h a =
    if-both (All ServersOf) (text_eq j k) ((k, servers) ∷ index) ((j, old) ∷ put k servers index)
      (λ _. (h, a.1)) (λ _. (a.0, put-ServersOf k servers index h a.1))

get-ServersOf :
    (k : Text) (index : List (Text × List Text))
    → All ServersOf index
    → All IsBase (or_default (get k index))
unfolding get
get-ServersOf k [] a = tt
get-ServersOf k ((j, old) ∷ index) a =
    if-both (λ (o : Option (List Text)). All IsBase (or_default o)) (text_eq j k) (some old)
      (get k index) (λ _. a.0.1) (λ _. get-ServersOf k index a.1)

append_not_empty : (old servers : List Text) → servers ≢ [] → (old ++ servers) ≢ []
append_not_empty [] servers h e = h e
append_not_empty (s ∷ old) servers h e = cc e

add_patterns-ServersOf :
    (servers patterns : List Text) (index : List (Text × List Text))
    → Servers servers
    → All ServersOf index
    → All ServersOf (add_patterns servers patterns index)
unfolding add_patterns
add_patterns-ServersOf servers [] index h a = a
add_patterns-ServersOf servers (pattern ∷ patterns) index h a =
    let key = to_lowercase pattern in
    let old = or_default (get key index) in
    add_patterns-ServersOf servers patterns _ h (
      put-ServersOf key (old ++ servers) index
        (
          append_not_empty old servers h.0,
          All-append IsBase old servers (get-ServersOf key index a) h.1,
        )
        a)

parse_dns-ServersOf :
    (services : List (List Text × List Text)) (index : List (Text × List Text))
    → All ServersOf index
    → All ServersOf (parse_dns services index)
unfolding parse_dns
parse_dns-ServersOf [] index a = a
parse_dns-ServersOf ((patterns, servers) ∷ services) index a =
    on_usable (usable servers) (usable-IsBase servers) (parse_dns-ServersOf services)
  where
    on_usable :
        (us : List Text)
        → All IsBase us
        → ((index : List (Text × List Text))
            → All ServersOf index
            → All ServersOf (parse_dns services index))
        → All ServersOf (elim us [
          | [] ↦ parse_dns services index
          | s ∷ rest ↦ parse_dns services (add_patterns (s ∷ rest) patterns index)
        ])
    on_usable [] h next = next index a
    on_usable (s ∷ rest) h next =
        next _ (add_patterns-ServersOf (s ∷ rest) patterns index (λ e. cc e, h) a)

first_server-IsBase : (servers : List Text) (s : Text) → first_server servers ≡ some s → IsBase s
unfolding first_server find
first_server-IsBase [] s h = absurd (cc h)
first_server-IsBase (t ∷ servers) s h = elim (Bool-cases (is_empty (no_slash t))) [
  | inl e ↦ first_server-IsBase servers s (ground arith)
  | inr e ↦ let same : no_slash t ≡ s = ground arith in subst IsBase same (no_slash-IsBase t e)
]

module _ {A : Type 0} (read : Text → Option A) where
  entries-BaseOf :
      (server : Text) (patterns : List Text)
      → IsBase server
      → All BaseOf (entries read server patterns)
  unfolding entries
  entries-BaseOf server [] h = tt
  entries-BaseOf server (pattern ∷ patterns) h = elim (Option-cases (read pattern)) [
    | inl e ↦ rw (e, entries) (entries-BaseOf server patterns h)
    | inr (a, e) ↦ rw (e, entries) (h, entries-BaseOf server patterns h)
  ]

  parse_services-BaseOf :
      (services : List (List Text × List Text)) → All BaseOf (parse_services read services)
  unfolding parse_services
  parse_services-BaseOf [] = tt
  parse_services-BaseOf ((patterns, servers) ∷ services) =
      elim (Option-cases (first_server servers)) [
        | inl e ↦ rw (e, parse_services) (parse_services-BaseOf services)
        | inr (server, e) ↦
            rw (e, parse_services)
              (All-append BaseOf (entries read server patterns) (parse_services read services)
                (entries-BaseOf server patterns (first_server-IsBase servers server e))
                (parse_services-BaseOf services))
      ]

-- Every server URL in a parsed file has some text and no slash at its end, and no domain key is
-- without a server.
pub parse-Bases :
    (parse_network : Text → Option IpNetwork) (resource : Resource) (file : BootstrapFile)
    → Bases (parse parse_network resource file)
unfolding parse
parse-Bases parse_network dns_file file = parse_dns-ServersOf file.services [] tt
parse-Bases parse_network asn_file file = parse_services-BaseOf parse_asn_range file.services
parse-Bases parse_network ipv4_file file = parse_services-BaseOf parse_network file.services
parse-Bases parse_network ipv6_file file = parse_services-BaseOf parse_network file.services
