-- ===== src/Tests/ReadBack.antt =====
-- Two clusters that keep what is written to them.
use aggregated_apiserver_ope.Prelude.{
  String, ◌≡◌, ◌≢◌, ◌⊎◌, inl, inr, refl, ◌∙◌, Bool, Bool-cases, true, false, ◌&&◌, Option, none,
  some, List, [], ◌∷◌, All, arith, eq_iff, lookup, ok, ◌==◌, string_eq, if◌then◌else◌,
}
use aggregated_apiserver_ope.Meta.{put, empty_map, cluster_annotation}
use aggregated_apiserver_ope.Members.{
  Members, Target, History, WriteOptions, get_call, list_call, create_call, update_call,
  update_status_call, delete_call, delete_collection_call,
}
use aggregated_apiserver_ope.Storage.{client, unstructured, as_unstructured, new_object}
use aggregated_apiserver_ope.Storage.Metadata.{stamp, strip}
use aggregated_apiserver_ope.Storage.Locate.{locate}
use aggregated_apiserver_ope.Storage.Write.{UpdatedObject, body_cluster, create, update}
use aggregated_apiserver_ope.Storage.ReadBack.{stored, StoreLaws, IsApart}
use aggregated_apiserver_ope.Storage.ReadBack.Writes.{ReadBack, create-ReadBack, update-ReadBack}
use aggregated_apiserver_ope.Tests.Sample.{SampleObj, sample, sample_GroupLaws}
use aggregated_apiserver_ope.Tests.Storage.{two_clusters, web}

abbrev is_nil : List String → Bool
is_nil [] = true
is_nil (x ∷ xs) = false

-- A write that keeps an object: of the same cluster and name, and no dry run.
abbrev keeps : Target sample → SampleObj → WriteOptions → Target sample → String → Bool
keeps asked obj o target name =
    asked.client == target.client && (obj.name == name && is_nil o.dry_run)

abbrev content : History sample → Target sample → String → Option SampleObj
content [] target name = if target.client == "client a" && name == "web" then some web else none
content (get_call asked n o ∷ t) target name = content t target name
content (list_call asked o ∷ t) target name = content t target name
content (create_call asked obj o ∷ t) target name =
    let rest = content t target name in if keeps asked obj o target name then some obj else rest
content (update_call asked obj o ∷ t) target name =
    let rest = content t target name in if keeps asked obj o target name then some obj else rest
content (update_status_call asked obj o ∷ t) target name = content t target name
content (delete_call asked n o ∷ t) target name = content t target name
content (delete_collection_call asked o l ∷ t) target name = content t target name

abbrev members : Members sample
members = record {
  get = λ t target name o. stored sample target name (content t target name);
  list = λ t target o. ok [];
  create = λ t target o options. ok o;
  update = λ t target o options. ok o;
  update_status = λ t target o options. ok o;
  delete = λ t target name options. ok tt;
  delete_collection = λ t target o options. ok tt;
}

keeps_own :
    (target : Target sample) (obj : SampleObj) (o : WriteOptions)
    → o.dry_run ≡ []
    → keeps target obj o target obj.name ≡ true
keeps_own target obj o d =
    rw d (ground (arith, eq_iff target.client target.client, eq_iff obj.name obj.name))

keeps_other :
    (target other : Target sample) (obj : SampleObj) (o : WriteOptions) (n : String)
    → other.client ≢ target.client
    → keeps target obj o other n ≡ false
keeps_other target other obj o n h = ground (arith, h, eq_iff target.client other.client)

members_StoreLaws : StoreLaws sample members
members_StoreLaws = record {
  content = content;
  not_found = λ r name. refl;
  get-content = λ t target name o. refl;
  content-get = λ t asked target name n o. refl;
  content-create = λ t target obj made o d h. ground (arith, h, keeps_own target obj o d);
  content-update = λ t target obj made o d h. ground (arith, h, keeps_own target obj o d);
  create_elsewhere = λ t target other obj o n h. rw (keeps_other target other obj o n h) refl;
  update_elsewhere = λ t target other obj o n h. rw (keeps_other target other obj o n h) refl;
}

clients_apart :
    (c cl : String)
    → lookup c two_clusters.clusters ≡ some cl
    → All (λ (d, x). (d ≡ c) ⊎ (x ≢ cl)) two_clusters.clusters
clients_apart c cl h = elim (Bool-cases ("a" == c)) [
  | inl e ↦ (
    inl ((eq_iff "a" c).0 e),
    (
      inr (λ p.
          let q : cl ≡ "client a" = ground (arith, h, e) in
          absurd (ground (arith, (eq_iff "client b" "client a").1 (p ∙ q)))),
      tt,
    ),
  )
  | inr e ↦ elim (Bool-cases ("b" == c)) [
    | inl f ↦ (
      inr (λ p.
          let q : cl ≡ "client b" = ground (arith, h, e, f) in
          absurd (ground (arith, (eq_iff "client a" "client b").1 (p ∙ q)))),
      (inl ((eq_iff "b" c).0 f), tt),
    )
    | inr f ↦ absurd (ground (arith, h, e, f))
  ]
]

two_clusters_IsApart : IsApart sample two_clusters
two_clusters_IsApart = record { names = (refl, (refl, tt)); clients = clients_apart }

abbrev write_options : WriteOptions
write_options = record { dry_run = []; field_manager = "kubectl"; field_validation = "Strict" }

abbrev api : SampleObj
api = record web { name = "api"; annotations = some (put cluster_annotation "b" empty_map) }

abbrev scaled : UpdatedObject sample
scaled o = ok (unstructured (record o { data_field = "five replicas" }))

abbrev scaled_web : SampleObj
scaled_web =
    stamp sample (strip sample (record (stamp sample web "a") { data_field = "five replicas" })) "a"

create-ReadBack_example :
    let (result, later) =
      create sample members two_clusters "default" (unstructured api) none write_options [] in
    ReadBack sample sample_GroupLaws members members_StoreLaws two_clusters two_clusters_IsApart
      "default" []
      (stamp sample (strip sample api) "b")
      later
unfolding create as_unstructured client
create-ReadBack_example =
    create-ReadBack sample sample_GroupLaws members members_StoreLaws two_clusters
      two_clusters_IsApart "default" (unstructured api) none write_options []
      (create sample members two_clusters "default" (unstructured api) none write_options []).1
      (stamp sample (strip sample api) "b") refl refl

update-ReadBack_example :
    let (result, later) =
      update sample members two_clusters "default" "web" scaled none none false write_options [] in
    ReadBack sample sample_GroupLaws members members_StoreLaws two_clusters two_clusters_IsApart
      "default" [] scaled_web later
unfolding update as_unstructured client locate body_cluster new_object stamp
update-ReadBack_example =
    update-ReadBack sample sample_GroupLaws members members_StoreLaws two_clusters
      two_clusters_IsApart "default" "web" scaled none none false write_options []
      (update sample members two_clusters "default" "web" scaled none none false write_options []).1
      scaled_web false refl refl
