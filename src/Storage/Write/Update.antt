-- ===== src/Storage/Write/Update.antt =====
-- Where `Update`, `Delete` and the update of the status subresource write.
use aggregated_apiserver_ope.Prelude.{
  String, ◌≡◌, ◌≢◌, ◌⊎◌, refl, ap, Bool, true, false, ◌&&◌, none, inl, inr, Bool-cases,
  Option-cases, Result-cases, lookup, arith, Result, ok, err, nat_eq, string_eq,
}
use aggregated_apiserver_ope.Kube.{Kube}
use aggregated_apiserver_ope.Members.{
  Adds, IsGet, Members, History, WriteOptions, update_call, Failure, failed, panicked,
}
use aggregated_apiserver_ope.Storage.{Options, RuntimeObject, as_unstructured, new_object}
use aggregated_apiserver_ope.Storage.Metadata.{stamp, strip}
use aggregated_apiserver_ope.Storage.Locate.{locate}
use aggregated_apiserver_ope.Storage.Locate.Reads.{locate_reads, locate_known}
use aggregated_apiserver_ope.Storage.Write.{
  with_client, Validation, UpdateValidation, update_validated, UpdatedObject, body_cluster,
  update_in, create, create_missing, update,
}
use aggregated_apiserver_ope.Storage.Write.Routing.{
  RefusedFor, Accepts, AcceptsUpdate, RejectsUpdate, update_validated-Accepts,
  update_validated-Rejects, CalledIn, call_in-CalledIn,
}
use aggregated_apiserver_ope.Storage.Write.Create.{CreatedIn, CreateReason, Destined, create_lem}

one_false : (a b : Bool) → (a && b) ≡ false → (a ≡ false) ⊎ (b ≡ false)
one_false true b h = inr h
one_false false b h = inl refl

module _ (K : Kube) (members : Members K) (s : Options K) (namespace : String) where
  -- One update reached `cluster`, with what the client's change makes of the object that was read
  -- there, stripped; the result is the stamped answer.
  abbrev pub UpdatedIn :
      K.Obj
      → String
      → WriteOptions
      → History K
      → Result (Failure K) (K.Obj × Bool)
      → History K
      → Type 0
  UpdatedIn u cluster options =
      CalledIn s namespace cluster (λ target. update_call target (strip K u) options)
        (λ t target. members.update t target (strip K u) options)
        (λ made. (stamp K made cluster, false))

  -- What the client's change makes of an object, taken as unstructured.
  abbrev pub Changed : UpdatedObject K → K.Obj → K.Obj → Type 0
  Changed updated_object base u =
      (obj : RuntimeObject K) × (updated_object base ≡ ok obj) × (as_unstructured K s obj ≡ ok u)

  -- Why the change of an object is not sent: the client's change fails, or gives no unstructured
  -- object, or the validation objects.
  abbrev pub ChangeReason : UpdatedObject K → K.Obj → UpdateValidation K → K.Err → Type 0
  ChangeReason updated_object base validation x =
      (updated_object base ≡ err x)
      ⊎ ((obj : RuntimeObject K) × (updated_object base ≡ ok obj)
          × (as_unstructured K s obj ≡ err x))
      ⊎ ((u : K.Obj) × Changed updated_object base u × RejectsUpdate K validation u base x)

  update_in_lem :
      (cluster : String) (located : K.Obj) (updated_object : UpdatedObject K)
      (validation : UpdateValidation K) (options : WriteOptions) (t : History K)
      → lookup cluster s.clusters ≢ none
      → let (result, later) =
          update_in K members s namespace cluster located updated_object validation options t in
        let existing = stamp K located cluster in
        RefusedFor {K = K} (ChangeReason updated_object existing validation) t result later
        ⊎ ((u : K.Obj) × Changed updated_object existing u
            × AcceptsUpdate K validation u existing
            × UpdatedIn u cluster options t result later)
  unfolding update_in
  update_in_lem cluster located updated_object validation options t known =
      let existing = stamp K located cluster in
      elim (Result-cases (updated_object existing)) [
        | inr (x, e) ↦ rw (e, update_in) (inl (x, refl, refl, inl refl))
        | inl (obj, e) ↦ elim (Result-cases (as_unstructured K s obj)) [
          | inr (x, f) ↦ rw (e, update_in, f) (inl (x, refl, refl, inr (inl (obj, refl, f))))
          | inl (u, f) ↦ elim (Option-cases (update_validated K validation u existing)) [
            | inr (x, v) ↦
                let rejects = update_validated-Rejects K validation u existing x v in
                rw (e, update_in, f, v)
                  (inl (x, refl, refl, inr (inr (u, (obj, refl, f), rejects))))
            | inl v ↦ elim (Option-cases (lookup cluster s.clusters)) [
              | inl n ↦ absurd (known n)
              | inr (cl, n) ↦
                  let accepts = update_validated-Accepts K validation u existing v in
                  rw (e, update_in, f, v, n, with_client)
                    (inr (
                      u,
                      (obj, refl, f),
                      accepts,
                      call_in-CalledIn s namespace _ _ _ cluster cl t n,
                    ))
            ]
          ]
        ]
      ]

  -- `created, createErr == nil, createErr`
  abbrev pub with_created : Result (Failure K) K.Obj → Result (Failure K) (K.Obj × Bool)
  with_created (ok made) = ok (made, true)
  with_created (err x) = err x

  -- The object was created, in the cluster that it is destined for, after its validation.
  abbrev pub CreatedAfter :
      UpdatedObject K
      → Validation K
      → WriteOptions
      → History K
      → Result (Failure K) (K.Obj × Bool)
      → History K
      → Type 0
  CreatedAfter updated_object validation options t result later =
      (u : K.Obj) × (cluster : String) × (made : Result (Failure K) K.Obj) × Changed updated_object
        (new_object K s) u
      × Accepts K validation u
      × Destined K members s namespace u cluster
      × CreatedIn K members s namespace u cluster options t made later
      × (result ≡ with_created made)

  create_missing-eq :
      (updated_object : UpdatedObject K) (validation : Validation K) (options : WriteOptions)
      (t : History K) (obj : RuntimeObject K)
      → updated_object (new_object K s) ≡ ok obj
      → let (made, later) = create K members s namespace obj validation options t in
        create_missing K members s namespace updated_object validation options t
        ≡ (with_created made, later)
  unfolding create_missing
  create_missing-eq updated_object validation options t obj e =
      elim (Result-cases (create K members s namespace obj validation options t).0) [
        | inl (made, f) ↦ rw (e, create_missing, f)
        | inr (x, f) ↦ rw (e, create_missing, f)
      ]

  -- Why an object that was not found is not created: the client's change of an empty object fails,
  -- or `Create` refuses what it gives.
  abbrev pub MissingReason : UpdatedObject K → Validation K → K.Err → Type 0
  MissingReason updated_object validation x =
      (updated_object (new_object K s) ≡ err x)
      ⊎ ((obj : RuntimeObject K) × (updated_object (new_object K s) ≡ ok obj)
          × CreateReason K members s namespace obj validation x)

  create_missing-Refused :
      (updated_object : UpdatedObject K) (validation : Validation K) (options : WriteOptions)
      (t : History K) (x : K.Err)
      → updated_object (new_object K s) ≡ err x
      → let (result, later) =
          create_missing K members s namespace updated_object validation options t in
        RefusedFor {K = K} (MissingReason updated_object validation) t result later
  unfolding create_missing
  create_missing-Refused updated_object validation options t x e =
      rw (e, create_missing) (x, refl, refl, inl refl)

  create_missing_lem :
      (updated_object : UpdatedObject K) (validation : Validation K) (options : WriteOptions)
      (t : History K)
      → let (result, later) =
          create_missing K members s namespace updated_object validation options t in
        RefusedFor {K = K} (MissingReason updated_object validation) t result later
        ⊎ CreatedAfter updated_object validation options t result later
  create_missing_lem updated_object validation options t =
      elim (Result-cases (updated_object (new_object K s))) [
        | inr (x, e) ↦ inl (create_missing-Refused updated_object validation options t x e)
        | inl (obj, e) ↦
            rw (create_missing-eq updated_object validation options t obj e)
              (elim (create_lem K members s namespace obj validation options t) [
                | inl (x, f, g, why) ↦ inl (x, ap with_created f, g, inr (obj, e, why))
                | inr (u, cluster, f, d, a, c) ↦ inr (u, cluster, _, (obj, e, f), a, d, c, refl)
              ])
      ]

  -- Why `Update` fails without a call behind the reads of `locate`: `locate` fails, and does not
  -- miss the object or creating is not allowed; or one of the reasons above.
  abbrev pub UpdateReason :
      UpdatedObject K
      → Validation K
      → UpdateValidation K
      → Bool
      → Result (Failure K) (String × K.Obj)
      → K.Err
      → Type 0
  UpdateReason updated_object create_validation update_validation force located x =
      ((located ≡ err (failed x)) × ((K.is_not_found x ≡ false) ⊎ (force ≡ false)))
      ⊎ ((cluster : String) × (existing : K.Obj) × (located ≡ ok (cluster, existing))
          × ChangeReason updated_object (stamp K existing cluster) update_validation x)
      ⊎ ((y : K.Err) × (located ≡ err (failed y))
          × (K.is_not_found y ≡ true)
          × (force ≡ true)
          × MissingReason updated_object create_validation x)

  -- Where and what `Update` did, behind the reads of `locate`.
  abbrev pub UpdateDone :
      UpdatedObject K
      → Validation K
      → UpdateValidation K
      → Bool
      → WriteOptions
      → Result (Failure K) (String × K.Obj)
      → History K
      → Result (Failure K) (K.Obj × Bool)
      → History K
      → Type 0
  UpdateDone updated_object create_validation update_validation force options located t result
        later =
      ((cluster : String) × (existing u : K.Obj) × (located ≡ ok (cluster, existing))
        × Changed updated_object (stamp K existing cluster) u
        × AcceptsUpdate K update_validation u (stamp K existing cluster)
        × UpdatedIn u cluster options t result later)
      ⊎ ((x : K.Err) × (located ≡ err (failed x))
          × (K.is_not_found x ≡ true)
          × (force ≡ true)
          × CreatedAfter updated_object create_validation options t result later)

  pub update_lem :
      (name : String) (updated_object : UpdatedObject K) (create_validation : Validation K)
      (update_validation : UpdateValidation K) (force : Bool) (options : WriteOptions)
      (t : History K)
      → let (located, u) =
          locate K members s namespace name none
            (body_cluster K members s namespace updated_object)
            t in
        let (result, later) =
          update K members s namespace name updated_object create_validation update_validation force
            options t in
        Adds IsGet t u
        × (RefusedFor {K = K}
              (UpdateReason updated_object create_validation update_validation force located)
              u
              result
              later
            ⊎ UpdateDone updated_object create_validation update_validation force options located u
                result later)
  unfolding update
  update_lem name updated_object create_validation update_validation force options t =
      let given = body_cluster K members s namespace updated_object in
      let found = locate K members s namespace name none given t in
      let known = locate_known K members s namespace name none given t in
      (
        locate_reads K members s namespace name none given t,
        elim (Result-cases found.0) [
          | inl ((cluster, existing), e) ↦
              rw (e, update)
                (elim (update_in_lem cluster existing updated_object update_validation options
                  found.1 (known.0 (cluster, existing) e)) [
                    | inl (x, r, l, why) ↦ inl (x, r, l, inr (inl (cluster, existing, refl, why)))
                    | inr (u, c, a, d) ↦ inr (inl (cluster, existing, u, refl, c, a, d))
                  ])
          | inr (panicked, e) ↦ absurd (known.1 e)
          | inr (failed x, e) ↦ elim (Bool-cases (K.is_not_found x && force)) [
            | inr n ↦ rw (e, update, n) (inl (x, refl, refl, inl (refl, one_false _ _ n)))
            | inl y ↦
                rw (e, update, y)
                  (elim (create_missing_lem updated_object create_validation options found.1) [
                    | inl (z, r, l, why) ↦
                        inl
                          (z, r, l, inr (inr (x, refl, ground (arith, y), ground (arith, y), why)))
                    | inr c ↦ inr (inr (x, refl, ground (arith, y), ground (arith, y), c))
                  ])
          ]
        ],
      )
