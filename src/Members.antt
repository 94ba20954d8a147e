-- ===== src/Members.antt =====
-- The member clusters, as the program meets them through its dynamic clients: calls, and answers
-- that may depend on every call made before. Handlers are functions on the calls made so far.
use aggregated_apiserver_ope.Prelude.{
  ℕ, String, Option, none, some, List, [], ◌∷◌, ◌++◌, Result, ok, err,
}
use aggregated_apiserver_ope.Meta.{Gvr}
use aggregated_apiserver_ope.Kube.{Kube}

-- `client.Resource(gvr)`, or `client.Resource(gvr).Namespace(namespace)`.
pub record Target (K : Kube) : Type 0 where
  pub client : K.Client
  pub gvr : Gvr
  pub namespace : Option String

-- The fields of `metav1.ListOptions` that the program sets.
pub record RemoteListOptions : Type 0 where
  pub field_selector : String
  pub label_selector : String
  pub limit : ℕ

-- `metav1.CreateOptions` and `metav1.UpdateOptions`, which have the same fields.
pub record WriteOptions : Type 0 where
  pub dry_run : List String
  pub field_manager : String
  pub field_validation : String

-- The fields of a `metainternalversion.ListOptions` that lists and collection deletes read.
pub record ListOptions (K : Kube) : Type 0 where
  pub label_selector : Option K.Selector
  pub field_selector : Option K.FieldSelector
  pub limit : ℕ

pub data Call (K : Kube) : Type 0 where
  get_call : Target K → String → K.GetOptions → Call K
  list_call : Target K → RemoteListOptions → Call K
  create_call : Target K → K.Obj → WriteOptions → Call K
  update_call : Target K → K.Obj → WriteOptions → Call K
  update_status_call : Target K → K.Obj → WriteOptions → Call K
  delete_call : Target K → String → K.DeleteOptions → Call K
  delete_collection_call : Target K → K.DeleteOptions → RemoteListOptions → Call K

-- The calls made so far, the latest first.
abbrev pub History : Kube → Type 0
History K = List (Call K)

-- What the member clusters answer after a history.
pub record Members (K : Kube) : Type 0 where
  pub get : History K → Target K → String → K.GetOptions → Result K.Err K.Obj
  pub list : History K → Target K → RemoteListOptions → Result K.Err (List K.Obj)
  pub create : History K → Target K → K.Obj → WriteOptions → Result K.Err K.Obj
  pub update : History K → Target K → K.Obj → WriteOptions → Result K.Err K.Obj
  pub update_status : History K → Target K → K.Obj → WriteOptions → Result K.Err K.Obj
  pub delete : History K → Target K → String → K.DeleteOptions → Result K.Err (Unit {0})
  pub delete_collection :
      History K → Target K → K.DeleteOptions → RemoteListOptions → Result K.Err (Unit {0})

-- How a handler ends without a result: it returns an error, or it dereferences a nil client.
pub data Failure (K : Kube) : Type 0 where
  failed : K.Err → Failure K
  panicked : Failure K

abbrev pub Exec : Kube → Type 0 → Type 0
Exec K A = History K → Result (Failure K) A × History K

module _ {K : Kube} {A : Type 0} where
  abbrev pub pure : A → Exec K A
  pure a t = (ok a, t)

  abbrev pub fail : K.Err → Exec K A
  fail e t = (err (failed e), t)

  abbrev pub lift : Result K.Err A → Exec K A
  lift (ok a) t = (ok a, t)
  lift (err e) t = (err (failed e), t)

  -- A call: it is recorded, and its answer is the member's after the calls before it.
  abbrev pub call : Call K → (History K → Result K.Err A) → Exec K A
  call c answer t = lift (answer t) (c ∷ t)

module _ {K : Kube} {A B : Type 0} where
  abbrev continue : Result (Failure K) A → (A → Exec K B) → Exec K B
  continue (ok a) f t = f a t
  continue (err e) f t = (err e, t)

  infixl 5 ◌>>=◌ ◌>>◌
  abbrev pub ◌>>=◌ : Exec K A → (A → Exec K B) → Exec K B
  ◌>>=◌ m f t = let (r, u) = m t in continue r f u

  abbrev pub ◌>>◌ : Exec K A → Exec K B → Exec K B
  m >> n = m >>= λ _. n

-- `if validate != nil { if err := validate(...); err != nil { return err } }`
abbrev pub check_with : {K : Kube} → Option K.Err → Exec K (Unit {0})
check_with none = pure tt
check_with (some e) = fail e

-- A member's goroutines under an errgroup, in the order in which they end. What a goroutine returns
-- beside no error is appended to the shared slice.
abbrev pub Job : Kube → Type 0 → Type 0
Job K A = String → K.Client → History K → Result K.Err (List A) × History K

abbrev gathered :
    {E A : Type 0} → Result E (List A) → List (Option E) × List A → List (Option E) × List A
gathered (ok xs) others = (none ∷ others.0, xs ++ others.1)
gathered (err e) others = (some e ∷ others.0, others.1)

module _ (K : Kube) {A : Type 0} where
  unfoldable pub go_all :
      Job K A → List (String × K.Client) → History K → (List (Option K.Err) × List A) × History K
  go_all job [] t = (([], []), t)
  go_all job ((cluster, client) ∷ rest) t =
      let (r, u) = job cluster client t in
      let (others, v) = go_all job rest u in (gathered r others, v)

  -- `group.Wait()`, and the internal error that every handler makes of its error.
  unfoldable pub in_group : Job K A → List (String × K.Client) → Exec K (List A)
  unfolding go_all
  in_group job clusters t =
      let (ended, u) = go_all job clusters t in
      elim (K.group_wait ended.0) [
        | none ↦ (ok ended.1, u)
        | some e ↦ (err (failed (K.new_internal_error e)), u)
      ]

-- The later history adds calls of one sort to the earlier.
pub data Adds {K : Kube} (P : Call K → Type 0) (t : History K) : History K → Type 0 where
  no_more : Adds P t t
  one_more : {u : History K} (c : Call K) → P c → Adds P t u → Adds P t (c ∷ u)

abbrev pub IsGet : {K : Kube} → Call K → Type 0
IsGet (get_call target name options) = Unit
IsGet _ = ⊥
