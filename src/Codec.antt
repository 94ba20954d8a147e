-- ===== src/Codec.antt =====
-- pkg/apiserver/scheme.go, protobuf.go and the convertor of install.go: how bodies become objects.
-- The serializers, the schemes and the conversions of the Kubernetes libraries are parameters.
pub mod RoundTrip
pub mod Negotiation
pub mod Negotiated
use aggregated_apiserver_ope.Prelude.{
  String, ◌<>◌, Bool, true, false, not, ◌&&◌, ◌||◌, Option, none, some, List, [], ◌∷◌, ◌++◌, map,
  ◌==◌, string_eq, if◌then◌else◌, Result, ok, err, map_err, ◌>>=◌,
}
use aggregated_apiserver_ope.Meta.{GroupVersion, Gvk}
use aggregated_apiserver_ope.Discovery.{ServedResource}

-- What the libraries provide. An `Unstructured` has a content; other objects are `Typed`.
pub record Libraries : Type 1 where
  pub Err : Type 0
  pub Bytes : Type 0
  pub Content : Type 0
  pub Typed : Type 0
  pub errorf : String → List Gvk → Err
  pub wrapf : String → List Gvk → Err → Err
  pub not_registered : Gvk → Err
  -- an Unstructured's content
  pub empty_content : Content
  pub content_kind : Content → Gvk
  pub set_content_kind : Gvk → Content → Content
  -- fields of a JSON object, and encoding/json
  pub set_field : String → String → Content → Content
  pub unmarshal : Bytes → Result Err Content
  pub marshal : Content → Result Err Bytes
  pub is_missing_kind : Err → Bool
  pub is_missing_version : Err → Bool
  pub gv_string : GroupVersion → String
  -- the scheme of typed objects, and runtime.DefaultUnstructuredConverter
  pub new_typed : Gvk → Option Typed
  pub to_unstructured : Typed → Result Err Content
  pub from_unstructured : Content → Typed → Result Err Typed
  pub set_typed_kind : Gvk → Typed → Typed
  -- runtime.GroupVersioner's KindForGroupVersionKinds
  pub Versioner : Type 0
  pub kind_for : Versioner → List Gvk → Option Gvk

-- An object, as the codecs take it apart.
pub data Object (L : Libraries) : Type 0 where
  unstructured : L.Content → Object L
  typed : L.Typed → Object L

-- The three results of a `Decode`.
pub record Decoded (L : Libraries) : Type 0 where
  pub object : Option (Object L)
  pub kind : Option Gvk
  pub error : Option L.Err

-- A `runtime.Decoder`: of a body, with the default kind and the object to decode into.
abbrev pub Decoder : Libraries → Type 0
Decoder L = L.Bytes → Option Gvk → Option (Object L) → Decoded L

-- A `runtime.Encoder`, by what it writes.
pub record Encoder (L : Libraries) : Type 0 where
  pub identifier : String
  pub encode : Object L → Result L.Err L.Bytes

abbrev pub gvk_version : Gvk → GroupVersion
gvk_version k = record { group = k.group; version = k.version }

-- `GroupVersionKind.Empty`
abbrev pub gvk_empty : Gvk → Bool
gvk_empty k = k.group == "" && k.version == "" && k.kind == ""

-- What `newScheme` registers.
pub data SchemeEntry : Type 0 where
  meta_types : GroupVersion → SchemeEntry
  known_unstructured known_list : Gvk → SchemeEntry

-- `newScheme`
unfoldable pub new_scheme : List ServedResource → List SchemeEntry
new_scheme resources = meta_types (record { group = ""; version = "v1" }) ∷ served_entries resources
  where
    served_entries : List ServedResource → List SchemeEntry
    served_entries [] = []
    served_entries (r ∷ rest) =
        known_unstructured r.kind
        ∷ known_list (record {
          group = r.kind.group;
          version = r.kind.version;
          kind = r.kind.kind <> "List";
        })
        ∷ meta_types (gvk_version r.kind)
        ∷ served_entries rest

-- A `runtime.SerializerInfo`, of serializers and stream serializers.
pub record SerializerInfo (S T : Type 0) : Type 0 where
  pub media_type : String
  pub serializer : S
  pub strict_serializer : S
  pub stream_serializer : T

-- `SupportedMediaTypes`, with the round trip serializers for protobuf.
unfoldable pub supported_media_types :
    {S T : Type 0} → S → T → List (SerializerInfo S T) → List (SerializerInfo S T)
supported_media_types proto stream [] = []
supported_media_types proto stream (info ∷ rest) =
    (if not (info.media_type == "application/vnd.kubernetes.protobuf") then info else record info {
      serializer = proto;
      strict_serializer = proto;
      stream_serializer = stream;
    })
    ∷ supported_media_types proto stream rest

module _ (L : Libraries) where
  -- `splitEncoder`
  unfoldable pub split_encoder : Encoder L → Encoder L → Encoder L
  split_encoder for_unstructured for_typed = record {
    identifier = "split:" <> for_typed.identifier;
    encode = λ object. elim object [
      | unstructured u ↦ for_unstructured.encode (unstructured u)
      | typed t ↦ for_typed.encode (typed t)
    ];
  }

  -- The end of `defaultingDecoder.Decode`, for a body without kind or version.
  unfoldable pub decode_patched :
      Decoder L → Decoded L → Gvk → Option (Object L) → L.Bytes → Decoded L
  decode_patched delegate first defaults into body = elim (L.unmarshal body) [
    | err e ↦ record first { error = some e }
    | ok content ↦
        elim (L.marshal (
          L.set_field "kind" defaults.kind
            (L.set_field "apiVersion" (L.gv_string (gvk_version defaults)) content))) [
              | err e ↦ first
              | ok patched ↦ delegate patched (some defaults) into
            ]
  ]

  -- `defaultingDecoder.Decode`
  unfoldable pub defaulting_decode : Decoder L → Decoder L
  unfolding decode_patched
  defaulting_decode delegate body defaults into =
      let first = delegate body defaults into in
      elim first.error [
        | none ↦ first
        | some e ↦ elim defaults [
          | none ↦ first
          | some d ↦
              if gvk_empty d
              then first
              else if not (L.is_missing_kind e) && not (L.is_missing_version e)
              then first
              else decode_patched delegate first d into body
        ]
      ]

  -- A `protobuf` serializer. `decode` is its `Decode` with a nil object to decode into, as the
  -- source calls it: a decoded object with its kind, or an error and perhaps the kind.
  pub record Proto : Type 0 where
    pub identifier : String
    pub decode : L.Bytes → Option Gvk → Result (Option Gvk × L.Err) (L.Typed × Gvk)
    pub encode : L.Typed → Result L.Err L.Bytes

  module _ (proto : Proto) where
    -- `protoRoundTripSerializer.Identifier`
    unfoldable pub proto_identifier : String
    proto_identifier = "protoRoundTrip:" <> proto.identifier

    -- `protoRoundTripSerializer.Decode`. An `Unstructured` that it decodes
    -- into gets the new content in place of its own.
    unfoldable pub proto_decode : Decoder L
    proto_decode body defaults into = elim (proto.decode body defaults) [
      | err (kind, e) ↦ record { object = none; kind = kind; error = some e }
      | ok (t, kind) ↦ elim (L.to_unstructured t) [
        | err e ↦ record {
          object = none;
          kind = some kind;
          error = some (L.wrapf "converting %s to unstructured: %w" (kind ∷ []) e);
        }
        | ok content ↦ record {
          object = some (unstructured (L.set_content_kind kind content));
          kind = some kind;
          error = none;
        }
      ]
    ]

    -- `protoRoundTripSerializer.Encode`
    unfoldable pub proto_encode : Object L → Result L.Err L.Bytes
    proto_encode (typed t) = proto.encode t
    proto_encode (unstructured content) =
        let kind = L.content_kind content in
        elim (L.new_typed kind) [
          | none ↦ err (L.not_registered kind)
          | some fresh ↦ elim (L.from_unstructured content fresh) [
            | err e ↦ err (L.wrapf "converting %s from unstructured: %w" (kind ∷ []) e)
            | ok t ↦ proto.encode (L.set_typed_kind kind t)
          ]
        ]

  -- `unstructuredConvertor.Convert`: the output object afterwards.
  unfoldable pub convert : Object L → Object L → Result L.Err (Object L)
  convert (typed t) out = err (L.errorf "input type %T is not unstructured" [])
  convert (unstructured content) (typed t) = err (L.errorf "output type %T is not unstructured" [])
  convert (unstructured content) (unstructured out) =
      let kind = L.content_kind out in
      ok (unstructured (if not (gvk_empty kind) then L.set_content_kind kind content else content))

  abbrev pub api_version_internal : String
  api_version_internal = "__internal"

  -- `unstructuredConvertor.ConvertToVersion`, for an unstructured input.
  unfoldable pub convert_to_version : L.Content → L.Versioner → Result L.Err L.Content
  convert_to_version content target =
      let from_kind = L.content_kind content in
      elim (L.kind_for target (from_kind ∷ [])) [
        | none ↦ err (L.errorf "%v cannot be converted to target %q" (from_kind ∷ []))
        | some to_kind ↦
            if to_kind.version == api_version_internal
            then ok content
            else ok (L.set_content_kind to_kind content)
      ]

  -- `unstructuredConvertor.ConvertFieldLabel`
  unfoldable pub convert_field_label : Gvk → String → String → Result L.Err (String × String)
  convert_field_label kind label value = ok (label, value)
