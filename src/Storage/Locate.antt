-- ===== src/Storage/Locate.antt =====
-- pkg/apiserver/storage/reader.go: `locate`, and `Get`, which is built on it.
pub mod Owner
pub mod Several
pub mod Reads
use aggregated_apiserver_ope.Prelude.{
  String, Bool, not, Option, none, some, List, [], ◌∷◌, map, lookup, ◌==◌, string_eq, if◌then◌else◌,
  Result, ok, err,
}
use aggregated_apiserver_ope.Prelude.Text.{join, less}
use aggregated_apiserver_ope.Prelude.Sort.{sort}
use aggregated_apiserver_ope.Kube.{Kube}
use aggregated_apiserver_ope.Members.{
  Members, get_call, Exec, pure, fail, call, ◌>>=◌, Job, in_group,
}
use aggregated_apiserver_ope.Storage.{Options, client, group_resource}
use aggregated_apiserver_ope.Storage.Metadata.{stamp}

module _ (K : Kube) (members : Members K) (s : Options K) where
  -- The goroutine that probes one cluster; a cluster that has no such object is passed over.
  unfoldable pub probe : String → String → K.GetOptions → Job K (String × K.Obj)
  probe namespace name options cluster cl t =
      let target = client K s cl namespace in
      (
        elim (members.get t target name options) [
          | ok obj ↦ ok ((cluster, obj) ∷ [])
          | err e ↦
              if K.is_not_found e
              then ok []
              else err (K.wrapf "getting %s from cluster %q: %w" (name ∷ cluster ∷ []) e)
        ],
        get_call target name options ∷ t,
      )

  -- The cases of `len(hits)`.
  unfoldable pub only_hit : String → List (String × K.Obj) → Exec K (String × K.Obj)
  only_hit name [] = fail (K.new_not_found (group_resource K s) name)
  only_hit name (hit ∷ []) = pure hit
  only_hit name hits = fail (
      K.new_conflict (group_resource K s) name (
        K.errorf "found in multiple clusters: %s"
          (join (sort less (map (λ (cluster, obj). cluster) hits)) ", " ∷ [])))

  -- `locate` in a given cluster.
  unfoldable pub locate_in : String → String → K.GetOptions → String → Exec K (String × K.Obj)
  locate_in namespace name options cluster = elim (lookup cluster s.clusters) [
    | none ↦ fail (K.new_bad_request "cluster %q is not part of this aggregated API" (cluster ∷ []))
    | some cl ↦
        let target = client K s cl namespace in
        do
          obj ← call (get_call target name options) (λ t. members.get t target name options)
          pure (cluster, obj)
  ]

  -- `locate` in all clusters.
  unfoldable pub locate_any : String → String → K.GetOptions → Exec K (String × K.Obj)
  unfolding in_group probe only_hit
  locate_any namespace name options = do
    hits ← in_group K (probe namespace name options) s.clusters
    only_hit name hits

  -- `locate`; the empty text stands for no given cluster, `none` for nil options.
  unfoldable pub locate : String → String → Option K.GetOptions → String → Exec K (String × K.Obj)
  unfolding locate_in locate_any
  locate namespace name none cluster =
      if not (cluster == "")
      then locate_in namespace name K.empty_get_options cluster
      else locate_any namespace name K.empty_get_options
  locate namespace name (some options) cluster =
      if not (cluster == "")
      then locate_in namespace name options cluster
      else locate_any namespace name options

  -- `Storage.Get`
  unfoldable pub get : String → String → Option K.GetOptions → Exec K K.Obj
  unfolding locate
  get namespace name options = do
    (cluster, obj) ← locate namespace name options ""
    pure (stamp K obj cluster)
