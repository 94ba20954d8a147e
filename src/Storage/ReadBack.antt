-- ===== src/Storage/ReadBack.antt =====
-- What `Get` reads after a `Create` or an `Update` that succeeded, where the members are stores.
pub mod Writes
use aggregated_apiserver_ope.Prelude.{
  String, ◌≡◌, ◌≢◌, ◌⊎◌, ◌∙◌, refl, ap, sym, true, Bool, Option, none, some, List, [], ◌∷◌, inl,
  inr, Option-cases, Result-cases, All, Any, All-imp, Any-imp, All-both, Any-both, NodupKeys,
  lookup, arith, Result, ok, err, string_eq,
}
use aggregated_apiserver_ope.Meta.{GroupResource}
use aggregated_apiserver_ope.Kube.{Kube}
use aggregated_apiserver_ope.Kube.Laws.{GroupLaws}
use aggregated_apiserver_ope.Members.{
  Members, Target, Call, History, WriteOptions, Adds, no_more, one_more, IsGet, get_call, list_call,
  create_call, update_status_call, delete_call, delete_collection_call, update_call, failed,
}
use aggregated_apiserver_ope.Storage.{Options, client, group_resource}
use aggregated_apiserver_ope.Storage.Metadata.{stamp, strip}
use aggregated_apiserver_ope.Storage.Locate.{locate, get}
use aggregated_apiserver_ope.Storage.Locate.Owner.{Steady, Lacks, locate_iff}
use aggregated_apiserver_ope.Storage.Locate.Several.{Answers, Has, only_in, locate-conflict}

module _ (K : Kube) where
  -- A store's answer to a get, from what it holds under the name.
  abbrev pub stored : Target K → String → Option K.Obj → Result K.Err K.Obj
  stored target name none =
      err
        (K.new_not_found (record { group = target.gvr.group; resource = target.gvr.resource }) name)
  stored target name (some obj) = ok obj

  -- A member cluster that is a store: a get reads what it holds, and changes nothing; a create or
  -- an update that succeeds, and is no dry run, holds what it answers under the name of that
  -- object, and changes nothing in another cluster.
  pub record StoreLaws (members : Members K) : Type 0 where
    pub content : History K → Target K → String → Option K.Obj
    pub not_found :
        (r : GroupResource) (name : String) → K.is_not_found (K.new_not_found r name) ≡ true
    pub get-content :
        (t : History K) (target : Target K) (name : String) (o : K.GetOptions)
        → members.get t target name o ≡ stored target name (content t target name)
    pub content-get :
        (t : History K) (asked target : Target K) (name n : String) (o : K.GetOptions)
        → content (get_call asked name o ∷ t) target n ≡ content t target n
    pub content-create :
        (t : History K) (target : Target K) (obj made : K.Obj) (o : WriteOptions)
        → o.dry_run ≡ []
        → members.create t target obj o ≡ ok made
        → content (create_call target obj o ∷ t) target (K.get_name made) ≡ some made
    pub content-update :
        (t : History K) (target : Target K) (obj made : K.Obj) (o : WriteOptions)
        → o.dry_run ≡ []
        → members.update t target obj o ≡ ok made
        → content (update_call target obj o ∷ t) target (K.get_name made) ≡ some made
    pub create_elsewhere :
        (t : History K) (target other : Target K) (obj : K.Obj) (o : WriteOptions) (n : String)
        → other.client ≢ target.client
        → content (create_call target obj o ∷ t) other n ≡ content t other n
    pub update_elsewhere :
        (t : History K) (target other : Target K) (obj : K.Obj) (o : WriteOptions) (n : String)
        → other.client ≢ target.client
        → content (update_call target obj o ∷ t) other n ≡ content t other n

  -- The names of the clusters are the keys of a map, and each cluster has a client of its own.
  pub record IsApart (s : Options K) : Type 0 where
    pub names : NodupKeys s.clusters
    pub clients :
        (c : String) (cl : K.Client)
        → lookup c s.clusters ≡ some cl
        → All (λ (d, x). (d ≡ c) ⊎ (x ≢ cl)) s.clusters

module _ (K : Kube) (G : GroupLaws K) (members : Members K) (laws : StoreLaws K members)
    (s : Options K) (apart : IsApart K s) (namespace : String) where
  open laws use {content}

  -- What a cluster holds under a name.
  abbrev pub held : History K → String → K.Client → Option K.Obj
  held t name cl = content t (client K s cl namespace) name

  content-read :
      (c : Call K) (t : History K) (target : Target K) (name : String)
      → IsGet c
      → content (c ∷ t) target name ≡ content t target name
  content-read (get_call asked n o) t target name h = laws.content-get t asked target n name o
  content-read (list_call asked o) t target name h = absurd h
  content-read (create_call asked obj o) t target name h = absurd h
  content-read (update_call asked obj o) t target name h = absurd h
  content-read (update_status_call asked obj o) t target name h = absurd h
  content-read (delete_call asked n o) t target name h = absurd h
  content-read (delete_collection_call asked o l) t target name h = absurd h

  -- Reads leave what the clusters hold.
  pub content-reads :
      (t : History K) {u : History K} (target : Target K) (name : String)
      → Adds IsGet t u
      → content u target name ≡ content t target name
  content-reads t target name no_more = refl
  content-reads t target name (one_more {u} c h k) =
      content-read c u target name h ∙ content-reads t target name k

  abbrev answer_at : History K → String → K.Client → Result K.Err K.Obj
  answer_at t name cl = stored K (client K s cl namespace) name (held t name cl)

  answer_at-Steady :
      (t : History K) (name : String) (o : K.GetOptions)
      → Steady K members s namespace name o (answer_at t name) t
  answer_at-Steady t name o u h cl =
      let target = client K s cl namespace in
      laws.get-content u target name o ∙ ap (stored K target name) (content-reads t target name h)

  held-Lacks :
      (t : History K) (name : String) (cl : K.Client)
      → held t name cl ≡ none
      → Lacks K (answer_at t name) cl
  held-Lacks t name cl e =
      (_, ap (stored K (client K s cl namespace) name) e, laws.not_found _ name)

  held-Answers : (t : History K) (name : String) (cl : K.Client) → Answers K (answer_at t name) cl
  held-Answers t name cl = elim (Option-cases (held t name cl)) [
    | inl e ↦ inr (held-Lacks t name cl e)
    | inr (obj, e) ↦ inl (obj, ap (stored K (client K s cl namespace) name) e)
  ]

  all-Answers :
      (t : History K) (name : String) (cs : List (String × K.Client))
      → All (λ (d, x). Answers K (answer_at t name) x) cs
  all-Answers t name [] = tt
  all-Answers t name ((d, x) ∷ cs) = (held-Answers t name x, all-Answers t name cs)

  -- No cluster but `c` holds the name; and another one does.
  abbrev pub HeldByNoOther : History K → String → String → Type 0
  HeldByNoOther t name c = All (λ (d, x). (d ≡ c) ⊎ (held t name x ≡ none)) s.clusters

  abbrev pub HeldByAnother : History K → String → String → Type 0
  HeldByAnother t name c =
      Any (λ (d, x). (d ≢ c) × ((obj : K.Obj) × (held t name x ≡ some obj))) s.clusters

  -- `Get` reads what the cluster `c` holds under the name, stamped, unless another one holds
  -- the name too: then it is a conflict.
  abbrev pub Reads : History K → String → String → K.Obj → History K → Type 0
  Reads before name c obj t =
      (HeldByNoOther before name c → (get K members s namespace name none t).0 ≡ ok (stamp K obj c))
      × (HeldByAnother before name c
          → (e : K.Err) × ((get K members s namespace name none t).0
              ≡ err (failed (K.new_conflict (group_resource K s) name e))))

  get_located :
      (name c : String) (obj : K.Obj) (t : History K)
      → (locate K members s namespace name (some K.empty_get_options) "" t).0 ≡ ok (c, obj)
      → (get K members s namespace name none t).0 ≡ ok (stamp K obj c)
  unfolding get locate
  get_located name c obj t h = ground (arith, h)

  get_conflict :
      (name : String) (e : K.Err) (t : History K)
      → (locate K members s namespace name (some K.empty_get_options) "" t).0 ≡ err (failed e)
      → (get K members s namespace name none t).0 ≡ err (failed e)
  unfolding get locate
  get_conflict name e t h = ground (arith, h)

  get-Reads :
      (c : String) (cl : K.Client) (obj : K.Obj) (name : String) (t : History K)
      → lookup c s.clusters ≡ some cl
      → held t name cl ≡ some obj
      → Reads t name c obj t
  get-Reads c cl obj name t n h =
      let answer = answer_at t name in
      let steady = answer_at-Steady t name K.empty_get_options in
      let has : answer cl ≡ ok obj = ap (stored K (client K s cl namespace) name) h in
      (
        λ none_else. get_located name c obj t (
            (locate_iff K G members s namespace name K.empty_get_options answer t steady c obj).1 (
              only_in K answer c cl obj s.clusters apart.names n has (
                All-imp (λ (d, x). (d ≡ c) ⊎ (held t name x ≡ none))
                  (λ (d, x). (d ≡ c) ⊎ Lacks K answer x) s.clusters
                  (λ (d, x) k. elim k [ inl same ↦ inl same | inr e ↦ inr (held-Lacks t name x e) ])
                  none_else))),
        λ another.
            let (e, conflict) =
              locate-conflict K G members s namespace name K.empty_get_options answer t steady c cl
                (all-Answers t name s.clusters) n (obj, has)
                (Any-imp (λ (d, x). (d ≢ c) × ((o : K.Obj) × (held t name x ≡ some o)))
                  (λ (d, x). (d ≢ c) × Has K answer x) s.clusters
                  (λ (d, x) (other, (o, k)).
                    (other, (o, ap (stored K (client K s x namespace) name) k)))
                  another) in
            (e, get_conflict name (K.new_conflict (group_resource K s) name e) t conflict),
      )

  -- A write in `c` that leaves the other clusters: what they held before decides.
  pub since-Reads :
      (c : String) (cl : K.Client) (obj : K.Obj) (name : String) (before t : History K)
      → lookup c s.clusters ≡ some cl
      → held t name cl ≡ some obj
      → ((x : K.Client) → x ≢ cl → held t name x ≡ held before name x)
      → Reads before name c obj t
  since-Reads c cl obj name before t n h others =
      let reads = get-Reads c cl obj name t n h in
      let others_apart = apart.clients c cl n in
      (
        λ none_else. reads.0 (
            All-both (λ (d, x). (d ≡ c) ⊎ (x ≢ cl))
              (λ (d, x). (d ≡ c) ⊎ (held before name x ≡ none))
              (λ (d, x). (d ≡ c) ⊎ (held t name x ≡ none)) s.clusters
              (λ (d, x) p q. elim p [
                | inl same ↦ inl same
                | inr differs ↦ elim q [ inl same ↦ inl same | inr e ↦ inr (others x differs ∙ e) ]
              ])
              others_apart none_else),
        λ another. reads.1 (
            Any-both (λ (d, x). (d ≡ c) ⊎ (x ≢ cl))
              (λ (d, x). (d ≢ c) × ((o : K.Obj) × (held before name x ≡ some o)))
              (λ (d, x). (d ≢ c) × ((o : K.Obj) × (held t name x ≡ some o))) s.clusters
              (λ (d, x) p (other, (o, k)). elim p [
                | inl same ↦ absurd (other same)
                | inr differs ↦ (other, (o, others x differs ∙ k))
              ])
              others_apart another),
      )
