-- ===== src/Tests/Codec.antt =====
-- Small stand-ins for the serializers, whose bodies are the contents themselves.
use aggregated_apiserver_ope.Prelude.{
  String, false, none, some, List, [], ◌∷◌, ◌==◌, string_eq, if◌then◌else◌, ok, err,
}
use aggregated_apiserver_ope.Meta.{Gvk}
use aggregated_apiserver_ope.Codec.{Libraries, unstructured, Decoder, Proto}
use aggregated_apiserver_ope.Codec.Negotiation.{Protobuf, Serializer, Info, Negotiator}

record SampleContent : Type 0 where
  kind : Gvk
  fields : String → String

abbrev libraries : Libraries
libraries = record {
  Err = String;
  Bytes = SampleContent;
  Content = SampleContent;
  Typed = SampleContent;
  errorf = λ format kinds. format;
  wrapf = λ format kinds e. format;
  not_registered = λ k. "not registered";
  empty_content = record {
    kind = record { group = ""; version = ""; kind = "" };
    fields = λ k. "";
  };
  content_kind = λ c. c.kind;
  set_content_kind = λ k c. record c { kind = k };
  set_field = λ k v c. record c { fields = λ j. if k == j then v else c.fields j };
  unmarshal = ok;
  marshal = ok;
  is_missing_kind = λ e. e == "missing";
  is_missing_version = λ e. false;
  gv_string = λ g. g.version;
  new_typed = λ k. if k.kind == "Pod" then some (record { kind = k; fields = λ j. "" }) else none;
  to_unstructured = ok;
  from_unstructured = λ c t. ok c;
  set_typed_kind = λ k t. record t { kind = k };
  Versioner = Gvk;
  kind_for = λ target kinds. some target;
}

abbrev proto : Proto libraries
proto = record { identifier = "proto"; decode = λ body defaults. ok (body, body.kind); encode = ok }

abbrev pod_kind : Gvk
pod_kind = record { group = ""; version = "v1"; kind = "Pod" }

abbrev pod : SampleContent
pod = record { kind = pod_kind; fields = λ k. if k == "kind" then "Pod" else "" }

-- A raw serializer, which cannot decode without an object to decode into.
abbrev raw : Proto libraries
raw = record proto { decode = λ body defaults. err (none, "nothing to decode into") }

abbrev delegate : Decoder libraries
delegate body defaults into = record {
  object = some (unstructured body);
  kind = some body.kind;
  error = none;
}

abbrev protobuf : Protobuf libraries
protobuf = record {
  Scheme = List String;
  empty_scheme = [];
  add_client_go = λ s. ok ("client-go" ∷ s);
  add_api_extensions = λ s. ok ("apiextensions" ∷ s);
  new_serializer = λ s. proto;
  new_raw_serializer = λ s. raw;
  Framer = String;
  length_delimited = "length delimited";
}

abbrev json : Serializer libraries
json = record {
  encoder = record { identifier = "json"; encode = λ o. err "json" };
  decoder = delegate;
}

abbrev json_info : Info libraries protobuf
json_info = record {
  media_type = "application/json";
  serializer = json;
  strict_serializer = json;
  stream_serializer = none;
}

abbrev codecs : Negotiator libraries protobuf
codecs = record {
  infos = json_info ∷ record json_info { media_type = "application/vnd.kubernetes.protobuf" } ∷ [];
  encoder_for_version = λ encoder gv. encoder;
  decoder_to_version = λ decoder gv. decoder;
}
