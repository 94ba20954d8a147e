-- ===== src/Server/Consistent.antt =====
-- What holds of a server at all times: its handler, its resources and its watches belong together,
-- and no watch outlives the handler that it was made for.
use aggregated_apiserver_ope.Prelude.{
  ℕ, suc, String, ◌≡◌, ◌≢◌, ◌⊎◌, ◌<◌, inl, inr, refl, sym, ap, subst, true, false, Option, none,
  some, List, [], ◌∷◌, nat_eq, string_eq, contains, NodupKeys, update-NodupKeys, remove-NodupKeys,
  lookup, arith, Result-cases, Result, ok, Bool-cases,
}
use aggregated_apiserver_ope.Meta.{ApiSelector}
use aggregated_apiserver_ope.Kube.{Kube}
use aggregated_apiserver_ope.Discovery.{ServedResource, ApiResourceList}
use aggregated_apiserver_ope.Server.{
  Options, Member, Handler, not_found, generic, Server, swap_handler, new, rebuild, resolve,
  set_cluster, remove_cluster, Answers, resolve_all, resync,
}
use aggregated_apiserver_ope.Install.{Apiserver, install_resources}
use aggregated_apiserver_ope.Server.Rebuild.{clients, Emptied, Replaced, Abandoned, rebuild_lem}

module _ (K : Kube) (api : Apiserver K) where
  -- The handler, the cancel function and the resources of a server are of one rebuild.
  abbrev pub Serves : Handler K → Option ℕ → Option (List ServedResource) → Type 0
  Serves not_found stop resources = (stop ≡ none) × (resources ≡ none)
  Serves (generic inner) stop resources =
      (stop ≡ some inner.done)
      × ((rs : List ServedResource) × (cs : List (String × K.Client)) × (resources ≡ some rs)
          × (rs ≢ [])
          × (install_resources K api rs cs ≡ ok inner.installed))

  -- Every context that was made is cancelled, except the one of the current cancel function.
  abbrev pub OthersEnded : ℕ → List ℕ → Option ℕ → Type 0
  OthersEnded made cancelled stop =
      ((c : ℕ) → c < made → (stop ≡ some c) ⊎ (contains cancelled c ≡ true))
      × ((c : ℕ) → stop ≡ some c → (c < made) × (contains cancelled c ≡ false))
      × ((c : ℕ) → contains cancelled c ≡ true → c < made)

  pub record Consistent (s : Server K) : Type 0 where
    pub members : NodupKeys s.members
    pub serves : Serves s.handler s.stop_watches s.resources
    pub ended : OthersEnded s.contexts s.cancelled s.stop_watches

  swap-OthersEnded :
      (made : ℕ) (cancelled : List ℕ) (stop : Option ℕ)
      → OthersEnded made cancelled stop
      → OthersEnded made (elim stop [ none ↦ cancelled | some c ↦ c ∷ cancelled ]) none
  swap-OthersEnded made cancelled none h = h
  swap-OthersEnded made cancelled (some d) (h, k, l) = (
    λ c m. ground (arith, h c m),
    λ c e. absurd (ground (arith, e)),
    λ c e. ground (arith, e, l c, k d refl),
  )

  new-OthersEnded :
      (made : ℕ) (cancelled : List ℕ)
      → OthersEnded made cancelled none
      → OthersEnded (suc made) cancelled (some made)
  new-OthersEnded made cancelled (h, k, l) =
      (λ c m. ground (arith, m, h c), λ c e. ground (arith, e, l c), λ c e. ground (arith, l c e))

  abandon-OthersEnded :
      (made : ℕ) (cancelled : List ℕ) (stop : Option ℕ)
      → OthersEnded made cancelled stop
      → OthersEnded (suc made) (made ∷ cancelled) stop
  abandon-OthersEnded made cancelled stop (h, k, l) =
      (λ c m. ground (arith, m, h c), λ c e. ground (arith, k c e), λ c e. ground (arith, e, l c))

  later-Consistent :
      (s later : Server K) (rs : List ServedResource)
      → Consistent s
      → (later ≡ s)
        ⊎ Emptied K api s later
        ⊎ ((rs ≢ []) × Replaced K api rs s later)
        ⊎ Abandoned K api s later
      → Consistent later
  unfolding swap_handler
  later-Consistent s later rs h (inl e) = subst Consistent (sym e) h
  later-Consistent s later rs h (inr (inl e)) = subst Consistent (sym e) (record {
    members = h.members;
    serves = (refl, refl);
    ended = swap-OthersEnded s.contexts s.cancelled s.stop_watches h.ended;
  })
  later-Consistent s later rs h (inr (inr (inl (some_rs, (inner, i, d, e))))) =
      subst Consistent (sym e) (record {
        members = h.members;
        serves = (ap some (sym d), (rs, clients K api s.members, refl, some_rs, i));
        ended =
            new-OthersEnded s.contexts _
              (swap-OthersEnded s.contexts s.cancelled s.stop_watches h.ended);
      })
  later-Consistent s later rs h (inr (inr (inr e))) = subst Consistent (sym e) (record {
    members = h.members;
    serves = h.serves;
    ended = abandon-OthersEnded s.contexts s.cancelled s.stop_watches h.ended;
  })

  pub rebuild-Consistent : (s : Server K) → Consistent s → Consistent (rebuild K api s).1
  rebuild-Consistent s h = elim (rebuild_lem K api s) [
    | inl (e, x, u, r, same) ↦ later-Consistent s _ [] h (inl same)
    | inr (rs, u, inl (x, r, same)) ↦ later-Consistent s _ rs h (inl same)
    | inr (rs, u, inr (inl (x, r, emptied))) ↦ later-Consistent s _ rs h (inr (inl emptied))
    | inr (rs, u, inr (inr (x, y, inl (r, replaced)))) ↦
        later-Consistent s _ rs h (inr (inr (inl (y, replaced))))
    | inr (rs, u, inr (inr (x, y, inr (e, r, abandoned)))) ↦
        later-Consistent s _ rs h (inr (inr (inr abandoned)))
  ]

  pub with_members-Consistent :
      (s : Server K) (members : List (String × Member K))
      → NodupKeys members
      → Consistent s
      → Consistent (record s { members = members })
  with_members-Consistent s members n h = record { members = n; serves = h.serves; ended = h.ended }

  lookup-resolve_all :
      (answers : Answers K api) (name : String) (members : List (String × Member K))
      → lookup name members ≡ none
      → lookup name (resolve_all K api answers members).1 ≡ none
  unfolding resolve_all
  lookup-resolve_all answers name [] h = refl
  lookup-resolve_all answers name ((n, m) ∷ rest) h =
      elim (Result-cases (resolve K (answers n m.discovery) m)) [
        | inl ((changed, resolved), e) ↦ ground (arith, e, h, lookup-resolve_all answers name rest)
        | inr (x, e) ↦ ground (arith, e, h, lookup-resolve_all answers name rest)
      ]

  resolve_all-NodupKeys :
      (answers : Answers K api) (members : List (String × Member K))
      → NodupKeys members
      → NodupKeys (resolve_all K api answers members).1
  unfolding resolve_all
  resolve_all-NodupKeys answers [] h = tt
  resolve_all-NodupKeys answers ((n, m) ∷ rest) h =
      let fresh = lookup-resolve_all answers n rest h.0 in
      let others = resolve_all-NodupKeys answers rest h.1 in
      elim (Result-cases (resolve K (answers n m.discovery) m)) [
        | inl ((changed, resolved), e) ↦ rw (resolve_all, e) (fresh, others)
        | inr (x, e) ↦ rw (resolve_all, e) (fresh, others)
      ]

  -- One call of an exported operation, or one tick of the resync, each under the server's mutex.
  pub data Step (s : Server K) : Server K → Type 0 where
    setting :
        (name : String) (client : K.Client) (discovery : K.Discovery) (selectors : List ApiSelector)
        (answer : Result K.Err (List ApiResourceList))
        → Step s (set_cluster K api name client discovery selectors answer s).1
    removing : (name : String) → Step s (remove_cluster K api name s).1
    ticking : (answers : Answers K api) → Step s (resync K api answers s)

  -- The servers that come of a new one.
  pub data Reachable : Server K → Type 0 where
    starting : (o : Options) → Reachable (new K o)
    stepping : {s t : Server K} → Reachable s → Step s t → Reachable t

  Step-Consistent : {s t : Server K} → Consistent s → Step s t → Consistent t
  unfolding set_cluster remove_cluster resync
  Step-Consistent {s = s} h (setting name client discovery selectors answer) =
      let fresh : Member K = record {
        client = client;
        discovery = discovery;
        selectors = selectors;
        resources = [];
      } in
      elim (Result-cases (resolve K answer fresh)) [
        | inr (x, e) ↦ rw (set_cluster, e) h
        | inl ((changed, m), e) ↦
            rw (set_cluster, e)
              (rebuild-Consistent _
                (with_members-Consistent s _ (update-NodupKeys name m s.members h.members) h))
      ]
  Step-Consistent {s = s} h (removing name) =
      rebuild-Consistent _
        (with_members-Consistent s _ (remove-NodupKeys name s.members h.members) h)
  Step-Consistent {s = s} h (ticking answers) =
      let resolved =
        with_members-Consistent s _ (resolve_all-NodupKeys answers s.members h.members) h in
      elim (Bool-cases (resolve_all K api answers s.members).0) [
        | inl c ↦ rw (resync, c) (rebuild-Consistent _ resolved)
        | inr c ↦ rw (resync, c) resolved
      ]

  -- Every server that comes of a new one by calls of `SetCluster` and `RemoveCluster` and by
  -- ticks of the resync, whatever the members and apiserver answer, is consistent: no name is
  -- registered twice; it serves nothing and remembers no resources, or it serves what was installed
  -- for the resources that it remembers, which are not none, under a context that is not cancelled;
  -- and every other context that was ever made is cancelled.
  pub Reachable-Consistent : {s : Server K} → Reachable s → Consistent s
  unfolding new
  Reachable-Consistent (starting o) = record {
    members = tt;
    serves = (refl, refl);
    ended = (
      λ c m. absurd (ground (arith, m)),
      λ c e. absurd (ground (arith, e)),
      λ c e. absurd (ground (arith, e)),
    );
  }
  Reachable-Consistent (stepping r step) = Step-Consistent (Reachable-Consistent r) step
