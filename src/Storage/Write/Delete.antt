-- ===== src/Storage/Write/Delete.antt =====
-- Where `Delete` deletes, and where the update of the status subresource writes.
use aggregated_apiserver_ope.Prelude.{
  String, ◌≡◌, ◌⊎◌, refl, Bool, true, false, none, inl, inr, Option-cases, Result-cases, lookup,
  Result, ok, err, string_eq,
}
use aggregated_apiserver_ope.Kube.{Kube}
use aggregated_apiserver_ope.Members.{
  Adds, IsGet, Members, History, WriteOptions, delete_call, update_status_call, failed, panicked,
  Failure,
}
use aggregated_apiserver_ope.Storage.{Options, as_unstructured}
use aggregated_apiserver_ope.Storage.Metadata.{stamp, strip}
use aggregated_apiserver_ope.Storage.Locate.{locate}
use aggregated_apiserver_ope.Storage.Locate.Reads.{locate_reads, locate_known}
use aggregated_apiserver_ope.Storage.Write.{
  with_client, Validation, validated, UpdateValidation, update_validated, UpdatedObject,
  body_cluster, delete, update_status,
}
use aggregated_apiserver_ope.Storage.Write.Routing.{
  RefusedFor, Accepts, AcceptsUpdate, Rejects, validated-Accepts, validated-Rejects,
  update_validated-Accepts, update_validated-Rejects, CalledIn, call_in-CalledIn,
}
use aggregated_apiserver_ope.Storage.Write.Update.{Changed, ChangeReason}

module _ (K : Kube) (members : Members K) (s : Options K) (namespace name : String) where
  -- One deletion reached `cluster`; the result is the object that was located there, stamped.
  abbrev pub DeletedIn :
      K.Obj
      → String
      → K.DeleteOptions
      → History K
      → Result (Failure K) (K.Obj × Bool)
      → History K
      → Type 0
  DeletedIn existing cluster options =
      CalledIn s namespace cluster (λ target. delete_call target name options)
        (λ t target. members.delete t target name options) (λ u. (stamp K existing cluster, true))

  -- Why nothing is deleted: `locate` fails, or the validation objects to the located object.
  abbrev pub DeleteReason : Validation K → Result (Failure K) (String × K.Obj) → K.Err → Type 0
  DeleteReason validation located x =
      (located ≡ err (failed x))
      ⊎ ((cluster : String) × (existing : K.Obj) × (located ≡ ok (cluster, existing))
          × Rejects K validation existing x)

  -- The whole of `Delete`: after the reads of `locate` it fails without a further call, with the
  -- error of `locate` or of the validation of the located object; or it sends one deletion of the
  -- name to the one cluster that the object was located in, and returns that cluster's error or the
  -- located object, stamped. It never panics.
  pub delete_lem :
      (validation : Validation K) (options : K.DeleteOptions) (t : History K)
      → let (located, u) = locate K members s namespace name none "" t in
        let (result, later) = delete K members s namespace name validation options t in
        Adds IsGet t u
        × (RefusedFor {K = K} (DeleteReason validation located) u result later
            ⊎ ((cluster : String) × (existing : K.Obj) × (located ≡ ok (cluster, existing))
                × Accepts K validation existing
                × DeletedIn existing cluster options u result later))
  unfolding delete
  delete_lem validation options t =
      let found = locate K members s namespace name none "" t in
      let known = locate_known K members s namespace name none "" t in
      (
        locate_reads K members s namespace name none "" t,
        elim (Result-cases found.0) [
          | inr (panicked, e) ↦ absurd (known.1 e)
          | inr (failed x, e) ↦ rw (e, delete) (inl (x, refl, refl, inl refl))
          | inl ((cluster, existing), e) ↦ elim (Option-cases (validated K validation existing)) [
            | inr (x, v) ↦
                let rejects = validated-Rejects K validation existing x v in
                rw (e, delete, v) (inl (x, refl, refl, inr (cluster, existing, refl, rejects)))
            | inl v ↦ elim (Option-cases (lookup cluster s.clusters)) [
              | inl n ↦ absurd (known.0 (cluster, existing) e n)
              | inr (cl, n) ↦
                  rw (e, delete, v, n, with_client)
                    (inr (
                      cluster,
                      existing,
                      refl,
                      validated-Accepts K validation existing v,
                      call_in-CalledIn s namespace _ _ _ cluster cl found.1 n,
                    ))
            ]
          ]
        ],
      )

  -- One update of the status subresource reached `cluster`.
  abbrev pub StatusUpdatedIn :
      K.Obj
      → String
      → WriteOptions
      → History K
      → Result (Failure K) (K.Obj × Bool)
      → History K
      → Type 0
  StatusUpdatedIn u cluster options =
      CalledIn s namespace cluster (λ target. update_status_call target (strip K u) options)
        (λ t target. members.update_status t target (strip K u) options)
        (λ made. (stamp K made cluster, false))

  -- Why no status is updated: `locate` fails, or the change of the located object is not sent.
  abbrev pub StatusReason :
      UpdatedObject K → UpdateValidation K → Result (Failure K) (String × K.Obj) → K.Err → Type 0
  StatusReason updated_object validation located x =
      (located ≡ err (failed x))
      ⊎ ((cluster : String) × (existing : K.Obj) × (located ≡ ok (cluster, existing))
          × ChangeReason K members s namespace updated_object (stamp K existing cluster) validation
              x)

  -- The whole of the status update: after the reads of `locate` it fails without a further call,
  -- with the error of `locate`, of the client's change of the located object as clients read it, of
  -- a result that is not unstructured, or of the validation; or the validation, if there is one,
  -- does not object, and it sends one status update, of the stripped object that the client's change makes of the
  -- located object as clients read it, to the cluster that has the object, and returns the stamped
  -- answer. It never creates and never panics.
  pub update_status_lem :
      (updated_object : UpdatedObject K) (validation : UpdateValidation K) (options : WriteOptions)
      (t : History K)
      → let (located, u) =
          locate K members s namespace name none
            (body_cluster K members s namespace updated_object)
            t in
        let (result, later) =
          update_status K members s namespace name updated_object validation options t in
        Adds IsGet t u
        × (RefusedFor {K = K} (StatusReason updated_object validation located) u result later
            ⊎ ((cluster : String) × (existing v : K.Obj) × (located ≡ ok (cluster, existing))
                × Changed K members s namespace updated_object (stamp K existing cluster) v
                × AcceptsUpdate K validation v (stamp K existing cluster)
                × StatusUpdatedIn v cluster options u result later))
  unfolding update_status
  update_status_lem updated_object validation options t =
      let given = body_cluster K members s namespace updated_object in
      let found = locate K members s namespace name none given t in
      let known = locate_known K members s namespace name none given t in
      (
        locate_reads K members s namespace name none given t,
        elim (Result-cases found.0) [
          | inr (panicked, e) ↦ absurd (known.1 e)
          | inr (failed x, e) ↦ rw (e, update_status) (inl (x, refl, refl, inl refl))
          | inl ((cluster, existing), e) ↦
              elim (Result-cases (updated_object (stamp K existing cluster))) [
                | inr (x, f) ↦
                    rw (e, update_status, f)
                      (inl (x, refl, refl, inr (cluster, existing, refl, inl f)))
                | inl (obj, f) ↦ elim (Result-cases (as_unstructured K s obj)) [
                  | inr (x, g) ↦
                      rw (e, update_status, f, g)
                        (inl (x, refl, refl, inr (cluster, existing, refl, inr (inl (obj, f, g)))))
                  | inl (v, g) ↦
                      elim (Option-cases
                        (update_validated K validation v (stamp K existing cluster))) [
                          | inr (x, w) ↦
                              let base = stamp K existing cluster in
                              let rejects = update_validated-Rejects K validation v base x w in
                              rw (e, update_status, f, g, w)
                                (inl (
                                  x,
                                  refl,
                                  refl,
                                  inr (
                                    cluster,
                                    existing,
                                    refl,
                                    inr (inr (v, (obj, f, g), rejects)),
                                  ),
                                ))
                          | inl w ↦ elim (Option-cases (lookup cluster s.clusters)) [
                            | inl n ↦ absurd (known.0 (cluster, existing) e n)
                            | inr (cl, n) ↦
                                rw (e, update_status, f, g, w, n, with_client)
                                  (inr (
                                    cluster,
                                    existing,
                                    v,
                                    refl,
                                    (obj, f, g),
                                    update_validated-Accepts K validation v
                                        (stamp K existing cluster) w,
                                    call_in-CalledIn s namespace _ _ _ cluster cl found.1 n,
                                  ))
                          ]
                        ]
                ]
              ]
        ],
      )
