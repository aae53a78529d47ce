-- ===== src/Metric/Tests.antt =====
-- A cookie that is to be counted, over the vectors in memory.
use wls_ingress.Base.{[], ◌≡◌}
use wls_ingress.Base.Text.{codes}
use wls_ingress.Base.Run.{panic}
use wls_ingress.Metric.{new_collector, inc_cookie_count}
use wls_ingress.Metric.Vectors.{inc_cookie_count_panics}
use wls_ingress.Metric.Memory.{memory, memory-IsPrometheus}

inc_cookie_count_panics_run :
    inc_cookie_count memory
      (codes "a")
      (codes "web")
      (new_collector memory [] (codes "pod") (codes "wls"))
    ≡ panic
inc_cookie_count_panics_run =
    inc_cookie_count_panics memory memory-IsPrometheus [] (codes "pod") (codes "wls") (codes "a")
      (codes "web")
