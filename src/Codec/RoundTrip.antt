-- ===== src/Codec/RoundTrip.antt =====
-- A body in protobuf gives back the object that it was made of.
use aggregated_apiserver_ope.Prelude.{◌≡◌, ◌∙◌, refl, ap, Option, none, some, Result, ok, err}
use aggregated_apiserver_ope.Meta.{Gvk}
use aggregated_apiserver_ope.Codec.{
  Libraries, Object, Decoder, unstructured, Proto, proto_decode, proto_encode,
}

-- What protobuf promises: a serializer with the scheme reads what it wrote of a registered kind, with
-- the kind of the object.
pub record ProtoLaws (L : Libraries) (proto : Proto L) : Type 0 where
  pub typed_kind : L.Typed → Gvk
  pub kind-set : (k : Gvk) (t : L.Typed) → typed_kind (L.set_typed_kind k t) ≡ k
  pub decode-encode :
      (t fresh : L.Typed) (body : L.Bytes) (defaults : Option Gvk)
      → L.new_typed (typed_kind t) ≡ some fresh
      → proto.encode t ≡ ok body
      → proto.decode body defaults ≡ ok (t, typed_kind t)

-- What protobuf promises of its raw serializer, which writes no kind: it needs an object to decode
-- into, and with none `Decode` is an error.
pub record RawLaws (L : Libraries) (proto : Proto L) : Type 0 where
  pub decode_nil :
      (body : L.Bytes) (defaults : Option Gvk)
      → (e : L.Err) × (proto.decode body defaults ≡ err (none, e))

module _ (L : Libraries) (proto : Proto L) (laws : ProtoLaws L proto) where
  -- The typed object of a content, which has its kind among its fields and no field that its type
  -- lacks.
  pub record IsTypedAs (content : L.Content) (t : L.Typed) : Type 0 where
    pub fresh : L.Typed
    pub registered : L.new_typed (L.content_kind content) ≡ some fresh
    pub converted : L.from_unstructured content fresh ≡ ok t
    pub lossless : L.to_unstructured (L.set_typed_kind (L.content_kind content) t) ≡ ok content
    pub own_kind : L.set_content_kind (L.content_kind content) content ≡ content

  -- What an encoder and a decoder make of a content. If the typed scheme lacks its kind, it is
  -- refused; if its type holds it without loss, it is written as protobuf writes the typed object,
  -- and such a body is read, whatever the default kind and the object to decode into, as the same
  -- content with the same kind.
  abbrev pub RoundTrips : (Object L → Result L.Err L.Bytes) → Decoder L → L.Content → Type 0
  RoundTrips encode decode content =
      (L.new_typed (L.content_kind content) ≡ none
        → encode (unstructured content) ≡ err (L.not_registered (L.content_kind content)))
      × ((t : L.Typed) (body : L.Bytes)
          → IsTypedAs content t
          → proto.encode (L.set_typed_kind (L.content_kind content) t) ≡ ok body
          → (encode (unstructured content) ≡ ok body)
            × ((defaults : Option Gvk) (into : Option (Object L))
                → decode body defaults into ≡ record {
                  object = some (unstructured content);
                  kind = some (L.content_kind content);
                  error = none;
                }))

  -- An object round trips through the serializer of protobuf.go.
  pub proto-RoundTrips :
      (content : L.Content) → RoundTrips (proto_encode L proto) (proto_decode L proto) content
  unfolding proto_encode proto_decode
  proto-RoundTrips content = (
    λ n. rw (proto_encode, n) refl,
    λ t body h e. (
      rw (proto_encode, h.registered, h.converted, e) refl,
      λ defaults into.
          rw
            (
              proto_decode,
              laws.decode-encode (L.set_typed_kind (L.content_kind content) t) h.fresh body defaults
                  (ap L.new_typed (laws.kind-set (L.content_kind content) t) ∙ h.registered) e,
              h.lossless,
              laws.kind-set (L.content_kind content) t,
              h.own_kind,
            )
            refl,
    ),
  )

-- What is streamed: an object is refused if the typed scheme lacks its kind, and otherwise written
-- as the raw serializer writes its typed object; and nothing is read, but there is an error.
abbrev pub OnlyWritten :
    (L : Libraries) (raw : Proto L)
    → (Object L → Result L.Err L.Bytes)
    → Decoder L
    → L.Content
    → Type 0
OnlyWritten L raw encode decode content =
    let kind = L.content_kind content in
    (L.new_typed kind ≡ none → encode (unstructured content) ≡ err (L.not_registered kind))
    × ((fresh t : L.Typed)
        → L.new_typed kind ≡ some fresh
        → L.from_unstructured content fresh ≡ ok t
        → encode (unstructured content) ≡ raw.encode (L.set_typed_kind kind t))
    × ((body : L.Bytes) (defaults : Option Gvk) (into : Option (Object L))
        → (e : L.Err) × (decode body defaults into
            ≡ record { object = none; kind = none; error = some e }))

pub raw-OnlyWritten :
    (L : Libraries) (raw : Proto L)
    → RawLaws L raw
    → (content : L.Content) → OnlyWritten L raw (proto_encode L raw) (proto_decode L raw) content
unfolding proto_encode proto_decode
raw-OnlyWritten L raw laws content = (
  λ n. rw (proto_encode, n) refl,
  λ fresh t n f. rw (proto_encode, n, f) refl,
  λ body defaults into.
      let (e, h) = laws.decode_nil body defaults in (e, rw (proto_decode, h) refl),
)
