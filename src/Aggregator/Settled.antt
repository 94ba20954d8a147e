-- ===== src/Aggregator/Settled.antt =====
-- A pass that fails nowhere: the server's members, and what it serves for them.
use mathlib.Core.Option
use aggregated_apiserver_ope.Prelude.{Option, string_eq}
use aggregated_apiserver_ope.Kube.{Kube}
use aggregated_apiserver_ope.Server.{Server}
use aggregated_apiserver_ope.Server.Settled.{Settled}
