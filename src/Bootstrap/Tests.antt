-- ===== src/Bootstrap/Tests.antt =====
-- The theorems about the bootstrap at concrete inputs.
use rdapify.Base.{refl, none, List, [], ◌∷◌}
use rdapify.Base.Text.{Text, text, is_empty, to_lowercase}
use rdapify.Base.Text.Parts.{split, trim_end_matches}
use rdapify.Bootstrap.Data.{BootstrapFile, dns_file, parse, longest_suffix}
use rdapify.Bootstrap.Data.Clean.{Bases, parse-Bases}
use rdapify.Bootstrap.Data.Longest.{IsLongest, name_of, longest_suffix-IsLongest}

abbrev file : BootstrapFile
file = record {
  services = ((text "uk" ∷ text "co.uk" ∷ [], text "https://a/" ∷ text "" ∷ []) ∷ []);
}

abbrev index : List (Text × Text)
index = (text "uk", text "a") ∷ (text "co.uk", text "b") ∷ []

parse-Bases_example : Bases (parse (λ pattern. none) dns_file file)
parse-Bases_example = parse-Bases (λ pattern. none) dns_file file

longest_suffix-IsLongest_example :
    IsLongest index (split 46 (name_of (text "x.Co.uk."))) (longest_suffix index (text "x.Co.uk."))
unfolding is_empty to_lowercase trim_end_matches
longest_suffix-IsLongest_example = longest_suffix-IsLongest index (text "x.Co.uk.") refl
