-- ===== src/Storage/Write/Routing.antt =====
-- What a handler that writes can do: refuse without a call, or make one call to one cluster and
-- return that cluster's answer.
use aggregated_apiserver_ope.Prelude.{
  String, ◌≡◌, ◌⊎◌, ◌∙◌, refl, ap, sym, Option, none, some, ◌∷◌, arith, inl, inr, Result-cases,
  lookup, Result, ok, err, string_eq,
}
use aggregated_apiserver_ope.Kube.{Kube}
use aggregated_apiserver_ope.Members.{
  History, Call, Target, Failure, failed, Exec, pure, call, ◌>>=◌,
}
use aggregated_apiserver_ope.Storage.{Options, client}
use aggregated_apiserver_ope.Storage.Write.{
  Validation, UpdateValidation, validated, update_validated,
}

-- An error, for the reason that is given, and no call.
abbrev pub RefusedFor :
    {K : Kube} {A : Type 0}
    → (K.Err → Type 0)
    → History K
    → Result (Failure K) A
    → History K
    → Type 0
RefusedFor {K = K} Reason t result later =
    (x : K.Err) × (result ≡ err (failed x)) × (later ≡ t) × Reason x

module _ (K : Kube) where
  -- A validation that is not nil has no objection; and it objects with an error.
  abbrev pub Accepts : Validation K → K.Obj → Type 0
  Accepts validation u =
      (validate : K.Obj → Option K.Err) → validation ≡ some validate → validate u ≡ none

  abbrev pub Rejects : Validation K → K.Obj → K.Err → Type 0
  Rejects validation u x =
      (validate : K.Obj → Option K.Err) × (validation ≡ some validate) × (validate u ≡ some x)

  abbrev pub AcceptsUpdate : UpdateValidation K → K.Obj → K.Obj → Type 0
  AcceptsUpdate validation u old =
      (validate : K.Obj → K.Obj → Option K.Err) → validation ≡ some validate → validate u old ≡ none

  abbrev pub RejectsUpdate : UpdateValidation K → K.Obj → K.Obj → K.Err → Type 0
  RejectsUpdate validation u old x =
      (validate : K.Obj → K.Obj → Option K.Err) × (validation ≡ some validate)
      × (validate u old ≡ some x)

  pub validated-Accepts : (v : Validation K) (u : K.Obj) → validated K v u ≡ none → Accepts v u
  validated-Accepts v u h validate p = ap (λ w. validated K w u) (sym p) ∙ h

  pub validated-Rejects :
      (v : Validation K) (u : K.Obj) (x : K.Err) → validated K v u ≡ some x → Rejects v u x
  validated-Rejects none u x h = absurd (ground (arith, h))
  validated-Rejects (some validate) u x h = (validate, refl, h)

  pub update_validated-Accepts :
      (v : UpdateValidation K) (u old : K.Obj)
      → update_validated K v u old ≡ none
      → AcceptsUpdate v u old
  update_validated-Accepts v u old h validate p = ap (λ w. update_validated K w u old) (sym p) ∙ h

  pub update_validated-Rejects :
      (v : UpdateValidation K) (u old : K.Obj) (x : K.Err)
      → update_validated K v u old ≡ some x
      → RejectsUpdate v u old x
  update_validated-Rejects none u old x h = absurd (ground (arith, h))
  update_validated-Rejects (some validate) u old x h = (validate, refl, h)

module _ {K : Kube} (s : Options K) (namespace : String) {A B : Type 0} where
  -- One call reached one cluster of the storage, and the result is made of its answer.
  pub record CalledIn (cluster : String) (make : Target K → Call K)
      (answer : History K → Target K → Result K.Err A) (finish : A → B) (t : History K)
      (result : Result (Failure K) B) (later : History K) : Type 0 where
    pub cl : K.Client
    pub known : lookup cluster s.clusters ≡ some cl
    pub called : later ≡ make (client K s cl namespace) ∷ t
    pub answered :
        ((x : K.Err) × (answer t (client K s cl namespace) ≡ err x) × (result ≡ err (failed x)))
        ⊎ ((a : A) × (answer t (client K s cl namespace) ≡ ok a) × (result ≡ ok (finish a)))

  module _ (make : Target K → Call K) (answer : History K → Target K → Result K.Err A)
      (finish : A → B) where
    -- The end of a handler, in the client of a known cluster.
    abbrev pub call_in : K.Client → Exec K B
    call_in cl =
        let target = client K s cl namespace in
        call (make target) (λ t. answer t target) >>= λ a. pure (finish a)

    pub call_in-CalledIn :
        (cluster : String) (cl : K.Client) (t : History K)
        → lookup cluster s.clusters ≡ some cl
        → CalledIn cluster make answer finish t (call_in cl t).0 (call_in cl t).1
    call_in-CalledIn cluster cl t e = elim (Result-cases (answer t (client K s cl namespace))) [
      | inl (a, m) ↦
          rw m (record { cl = cl; known = e; called = refl; answered = inr (a, m, refl) })
      | inr (x, m) ↦
          rw m (record { cl = cl; known = e; called = refl; answered = inl (x, m, refl) })
    ]
