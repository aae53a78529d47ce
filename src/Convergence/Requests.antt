-- ===== src/Convergence/Requests.antt =====
-- Where a request goes when the controller has nothing left to do: the machine of Running.antt and
-- the HTTP handler together.
use wls_ingress.Base.Text.{Text}
use wls_ingress.Handler.{Handler}
use wls_ingress.Convergence.Chosen.{Chosen}
