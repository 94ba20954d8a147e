-- ===== src/Tests/Startup.antt =====
-- A flag package that reads pairs of a name and a value, and the workload of one AggregatedAPI.
use aggregated_apiserver_ope.Prelude.{
  String, ◌<>◌, ◌≡◌, ◌↔◌, refl, sym, ap, ◌∙◌, true, false, Option, none, some, List, [], ◌∷◌,
  lookup, Bool-cases, inl, inr, arith, eq_iff, ◌==◌, string_eq, nat_eq, if◌then◌else◌, ok,
}
use aggregated_apiserver_ope.Prelude.Text.{cut_prefix, cut_prefix-append}
use aggregated_apiserver_ope.Operator as operator
use aggregated_apiserver_ope.Operator.{AggregatedApi, NamespacedName, deployment, service}
use aggregated_apiserver_ope.Server as server
use aggregated_apiserver_ope.Aggregator.Startup.{Flags, Options, accepts, to_aggregated_api, start}
use aggregated_apiserver_ope.Aggregator.Startup.Child.{
  set_flags, ParsesFlags, interval_or_default, child_starts,
}
use aggregated_apiserver_ope.Tests.Sample.{sample}

same_flag : (m n : String) → (("--" <> m) == ("--" <> n)) ≡ (m == n)
same_flag m n = elim (Bool-cases (m == n)) [
  | inl e ↦ rw ((eq_iff m n).0 e, (eq_iff n n).1 refl) ((eq_iff ("--" <> n) ("--" <> n)).1 refl)
  | inr e ↦ elim (Bool-cases (("--" <> m) == ("--" <> n))) [
    | inr f ↦ f ∙ sym e
    | inl f ↦
        let cut : some m ≡ some n =
          sym (cut_prefix-append "--" m)
          ∙ ap (λ t. cut_prefix t "--") ((eq_iff ("--" <> m) ("--" <> n)).0 f)
          ∙ cut_prefix-append "--" n in
        absurd (ground (arith, cut, e, eq_iff m n))
  ]
]

abbrev value_of : String → List String → Option String
value_of name [] = none
value_of name (flag ∷ []) = none
value_of name (flag ∷ value ∷ rest) =
    let later = value_of name rest in if flag == ("--" <> name) then some value else later

abbrev flags : Flags sample
flags = record {
  zap_flags = [];
  parse = λ registered args. ok (λ name. value_of name args);
  int_value = λ text. none;
  duration_value = λ text. some 3_600_000_000_000;
}

value_of-set_flags :
    (name : String) (pairs : List (String × String))
    → value_of name (set_flags pairs) ≡ lookup name pairs
value_of-set_flags name [] = refl
value_of-set_flags name ((m, value) ∷ rest) =
    rw (same_flag m name, value_of-set_flags name rest) refl

parses : ParsesFlags sample flags
parses registered pairs nodup h =
    ((λ name. value_of name (set_flags pairs)), refl, λ name. value_of-set_flags name pairs)

abbrev operator_options : operator.Options
operator_options = record { namespace = "aggregators"; service_account = "api-aggregator" }

abbrev shop : AggregatedApi sample
shop = record {
  namespace = "team-a";
  name = "shop";
  deleting = false;
  finalizers = [];
  image = "";
  resync_interval = some 3600;
}

child_starts_example :
    let container = (deployment sample operator_options shop).container in
    let own : NamespacedName = record { namespace = "team-a"; name = "shop" } in
    (c : Options) × (s : server.Server sample) × (start sample flags container.args ≡ ok (c, s))
    × ((req : NamespacedName) → (accepts c req ≡ true) ↔ (req ≡ own))
    × (to_aggregated_api c ≡ own ∷ [])
    × (c.url
        ≡ "https://"
          <> ((service sample operator_options shop).name
              <> ("." <> ((service sample operator_options shop).namespace <> ".svc:443"))))
    × ((service sample operator_options shop).port ≡ 443)
    × (s.opts.port ≡ container.container_port)
    × (container.port_name ≡ (service sample operator_options shop).target_port)
    × (s.opts.resync_interval ≡ interval_or_default sample flags (some 3_600_000_000_000))
child_starts_example =
    child_starts sample flags parses operator_options shop (some 3_600_000_000_000) refl
      (λ p. absurd (ground (arith, (eq_iff "shop" "").1 p)))
      (λ p. absurd (ground (arith, (eq_iff "team-a" "").1 p)))
