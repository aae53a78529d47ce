-- ===== src/Config.antt =====
-- internal/ingress/controller/config: the configuration that the HTTP handler serves from, and its
-- comparison. The pointers in `Services` come from `getConfiguration` alone and are never nil.
pub mod Equality
mod Tests
use wls_ingress.Base.{ℕ, Bool, true, false, Option, some, if◌then◌else◌, not}
use wls_ingress.Base.Text.{Text, ◌==◌}
use wls_ingress.Base.Slices.{Slice}
use wls_ingress.Sets.{compare}
use wls_ingress.Ingress.{Backend, backend_equal}

pub record ConfigurationBackend : Type 0 where
  pub backend : Option Backend
  pub hostname : Text

pub record Configuration : Type 0 where
  pub services : Slice ConfigurationBackend
  pub controller_pods_count : ℕ

-- (*ConfigurationBackend).Equal
pub configuration_backend_equal : ConfigurationBackend → ConfigurationBackend → Bool
configuration_backend_equal s1 s2 =
    if not (s1.hostname == s2.hostname)
    then false
    else if not (backend_equal s1.backend s2.backend)
    then false
    else true

-- (*Configuration).Equal, with compareServices and compareServicesFunc
unfoldable pub configuration_equal : Configuration → Configuration → Bool
unfolding configuration_backend_equal
configuration_equal c1 c2 =
    if not (compare configuration_backend_equal c1.services c2.services) then false else true
