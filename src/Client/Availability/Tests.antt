-- ===== src/Client/Availability/Tests.antt =====
-- The theorem about `domain_available_batch` at a concrete input.
use rdapify.Base.{◌≡◌, Option, some, none, true, List, [], ◌∷◌, ◌==◌, if◌then◌else◌, map}
use rdapify.Base.Text.{Text, text}
use rdapify.Base.Result.{ok}
use rdapify.Client.Availability.Many.{Task, Answer, flatten, enumerate_from, domain_available_batch}
use rdapify.Client.Availability.Many.Order.{domain_available_batch_lem}

abbrev names : List Text
names = text "a.de" ∷ text "b.de" ∷ text "c.de" ∷ []

-- The task at the second place panics.
abbrev ends : Task → Option Answer
ends (place, name) =
    if place == 1
    then none
    else some (ok (record { domain = name; available = true; expires_at = none }))

domain_available_batch_lem_example :
    domain_available_batch ends (λ tasks. 1) names (some 2)
    ≡ some (flatten (map ends (enumerate_from 0 names)))
domain_available_batch_lem_example = domain_available_batch_lem ends (λ tasks. 1) names (some 2)
