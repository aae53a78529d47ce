-- ===== src/Config/Tests.antt =====
-- Configurations compared by Equal, and the theorems at them.
use wls_ingress.Base.{true, List, [], ◌∷◌, none, some, ◌≡◌, ◌↔◌}
use wls_ingress.Base.Text.{Text, codes}
use wls_ingress.Sets.{compare}
use wls_ingress.Sets.Count.{SameCounts, compare-SameCounts}
use wls_ingress.Config.{Configuration, ConfigurationBackend, configuration_backend_equal}
use wls_ingress.Config.Equality.{service-IsEquivalence}

abbrev site : Text → ConfigurationBackend
site hostname = record { backend = none; hostname = hostname }

abbrev sites : List ConfigurationBackend
sites = site (codes "a.b") ∷ site (codes "c.d") ∷ []

abbrev swapped : List ConfigurationBackend
swapped = site (codes "c.d") ∷ site (codes "a.b") ∷ []

abbrev config : List ConfigurationBackend → Configuration
config s = record { services = some s; controller_pods_count = 1 }

compare-SameCounts_example :
    (compare configuration_backend_equal (some sites) (some swapped) ≡ true)
    ↔ SameCounts configuration_backend_equal sites swapped
compare-SameCounts_example =
    compare-SameCounts configuration_backend_equal service-IsEquivalence sites swapped
