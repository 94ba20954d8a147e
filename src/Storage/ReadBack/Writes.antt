-- ===== src/Storage/ReadBack/Writes.antt =====
-- `Create` and `Update`, and a `Get` behind them.
use aggregated_apiserver_ope.Prelude.{
  String, ◌≡◌, ◌≢◌, ◌⊎◌, ◌∙◌, ap, subst, Bool, none, some, [], ◌∷◌, inl, inr, Result-cases, lookup,
  arith, ok, string_eq,
}
use aggregated_apiserver_ope.Kube.{Kube}
use aggregated_apiserver_ope.Kube.Laws.{GroupLaws}
use aggregated_apiserver_ope.Members.{
  Members, Target, Call, History, WriteOptions, Adds, no_more, IsGet, create_call, update_call,
}
use aggregated_apiserver_ope.Storage.{Options, RuntimeObject, client}
use aggregated_apiserver_ope.Storage.Metadata.{stamp, strip}
use aggregated_apiserver_ope.Storage.Locate.{locate}
use aggregated_apiserver_ope.Storage.Write.{
  Validation, UpdateValidation, UpdatedObject, body_cluster, create, update,
}
use aggregated_apiserver_ope.Storage.Write.Create.{CreatedIn, CreateReason, CreateDone, create_lem}
use aggregated_apiserver_ope.Storage.Write.Update.{UpdatedIn, UpdateReason, UpdateDone, update_lem}
use aggregated_apiserver_ope.Storage.Write.Routing.{RefusedFor}
use aggregated_apiserver_ope.Storage.ReadBack as read_back

module _ (K : Kube) (G : GroupLaws K) (members : Members K) (laws : read_back.StoreLaws K members)
    (s : Options K) (apart : read_back.IsApart K s) (namespace : String) where
  open laws use {content}

  -- `Get` reads, under its name, the object that a write returned.
  abbrev pub ReadBack : History K → K.Obj → History K → Type 0
  ReadBack before result t =
      (cluster : String) × (made : K.Obj) × (result ≡ stamp K made cluster)
      × (lookup cluster s.clusters ≢ none)
      × read_back.Reads K G members laws s apart namespace before (K.get_name made) cluster made t

  write-Reads :
      (cluster : String) (cl : K.Client) (made : K.Obj) (before t later : History K) (c : Call K)
      → lookup cluster s.clusters ≡ some cl
      → later ≡ c ∷ t
      → content (c ∷ t) (client K s cl namespace) (K.get_name made) ≡ some made
      → ((other : Target K)
          → other.client ≢ cl
          → content (c ∷ t) other (K.get_name made) ≡ content t other (K.get_name made))
      → Adds IsGet before t
      → read_back.Reads K G members laws s apart namespace before
          (K.get_name made)
          cluster
          made
          later
  unfolding client
  write-Reads cluster cl made before t later c n called held elsewhere r =
      let name = K.get_name made in
      read_back.since-Reads K G members laws s apart namespace cluster cl made name before later n
        (ap (λ u. content u (client K s cl namespace) name) called ∙ held)
        (λ x differs.
          let other = client K s x namespace in
          ap (λ u. content u other name) called
          ∙ elsewhere other differs
          ∙ read_back.content-reads K G members laws s apart namespace before other name r)

  CreatedIn-ReadBack :
      (u : K.Obj) (cluster : String) (options : WriteOptions) (before t later : History K)
      (result : K.Obj)
      → options.dry_run ≡ []
      → Adds IsGet before t
      → CreatedIn K members s namespace u cluster options t (ok result) later
      → ReadBack before result later
  unfolding client
  CreatedIn-ReadBack u cluster options before t later result d r w = elim w.answered [
    | inl (x, a, e) ↦ absurd (ground (arith, e))
    | inr (made, a, e) ↦
        let target = client K s w.cl namespace in
        (
          cluster,
          made,
          ground (arith, e),
          λ n. ground (arith, w.known, n),
          write-Reads cluster w.cl made before t later (create_call target (strip K u) options)
              w.known w.called (laws.content-create t target (strip K u) made options d a)
              (λ other differs.
                laws.create_elsewhere t target other (strip K u) options (K.get_name made) differs)
              r,
        )
  ]

  UpdatedIn-ReadBack :
      (u : K.Obj) (cluster : String) (options : WriteOptions) (before t later : History K)
      (result : K.Obj) (created : Bool)
      → options.dry_run ≡ []
      → Adds IsGet before t
      → UpdatedIn K members s namespace u cluster options t (ok (result, created)) later
      → ReadBack before result later
  unfolding client
  UpdatedIn-ReadBack u cluster options before t later result created d r w = elim w.answered [
    | inl (x, a, e) ↦ absurd (ground (arith, e))
    | inr (made, a, e) ↦
        let target = client K s w.cl namespace in
        (
          cluster,
          made,
          ground (arith, e),
          λ n. ground (arith, w.known, n),
          write-Reads cluster w.cl made before t later (update_call target (strip K u) options)
              w.known w.called (laws.content-update t target (strip K u) made options d a)
              (λ other differs.
                laws.update_elsewhere t target other (strip K u) options (K.get_name made) differs)
              r,
        )
  ]

  -- Where the members are stores and no two clusters share a client, the object that a `Create`
  -- returns, in no dry run, is what `Get` then reads under its name, unless another cluster already
  -- had an object of that name: then `Get` fails with a conflict.
  pub create-ReadBack :
      (obj : RuntimeObject K) (validation : Validation K) (options : WriteOptions)
      (t later : History K) (result : K.Obj)
      → options.dry_run ≡ []
      → create K members s namespace obj validation options t ≡ (ok result, later)
      → ReadBack t result later
  create-ReadBack obj validation options t later result d h =
      elim (subst
        (λ (r, u).
          RefusedFor {K = K} (CreateReason K members s namespace obj validation) t r u
          ⊎ CreateDone K members s namespace obj validation options t r u)
        h (create_lem K members s namespace obj validation options t)) [
          | inl (x, e, f, why) ↦ absurd (ground (arith, e))
          | inr (v, cluster, f, b, a, w) ↦
              CreatedIn-ReadBack v cluster options t t later result d no_more w
        ]

  -- Where the members are stores and no two clusters share a client, the object that an `Update`
  -- returns, be it updated or created, in no dry run, is what `Get` then reads under its name,
  -- unless another cluster had an object of that name before: then `Get` fails with a conflict.
  pub update-ReadBack :
      (name : String) (updated_object : UpdatedObject K) (create_validation : Validation K)
      (update_validation : UpdateValidation K) (force : Bool) (options : WriteOptions)
      (t later : History K) (result : K.Obj) (created : Bool)
      → options.dry_run ≡ []
      → update K members s namespace name updated_object create_validation update_validation force
          options t
        ≡ (ok (result, created), later)
      → ReadBack t result later
  update-ReadBack name updated_object create_validation update_validation force options t later
        result created d h =
      let (located, u) =
        locate K members s namespace name none (body_cluster K members s namespace updated_object)
          t in
      let (reads, done) =
        update_lem K members s namespace name updated_object create_validation update_validation
          force options t in
      elim (subst
        (λ (r, v).
          RefusedFor {K = K}
            (UpdateReason K members s namespace updated_object create_validation update_validation
              force located)
            u r v
          ⊎ UpdateDone K members s namespace updated_object create_validation update_validation
              force options located u r v)
        h done) [
          | inl (x, e, f, why) ↦ absurd (ground (arith, e))
          | inr (inl (cluster, existing, v, l, b, a, w)) ↦
              UpdatedIn-ReadBack v cluster options t u later result created d reads w
          | inr (inr (x, l, n, f, (v, cluster, made, b, a, g, w, e))) ↦ elim (Result-cases made) [
            | inr (y, m) ↦ absurd (ground (arith, e, m))
            | inl (obj, m) ↦
                let answered : made ≡ ok result = ground (arith, e, m) in
                CreatedIn-ReadBack v cluster options t u later result d reads (
                  subst (λ r. CreatedIn K members s namespace v cluster options u r later) answered
                    w)
          ]
        ]
