-- ===== src/Codec/Negotiation.antt =====
-- defaultingNegotiatedSerializer of scheme.go, and the serializers that protobuf.go makes for it.
use aggregated_apiserver_ope.Prelude.{Bool, false, Option, some, List, [], ◌∷◌, Result, ◌>>=◌}
use aggregated_apiserver_ope.Codec.{
  Libraries, Encoder, Decoder, Proto, proto_identifier, proto_encode, proto_decode, SchemeEntry,
  meta_types, SerializerInfo, supported_media_types, split_encoder, defaulting_decode,
}

-- A `runtime.Serializer`.
pub record Serializer (L : Libraries) : Type 0 where
  pub encoder : Encoder L
  pub decoder : Decoder L

-- The library's schemes, its protobuf serializers, and its framers.
pub record Protobuf (L : Libraries) : Type 1 where
  pub Scheme : Type 0
  pub empty_scheme : Scheme
  pub add_client_go : Scheme → Result L.Err Scheme
  pub add_api_extensions : Scheme → Result L.Err Scheme
  pub new_serializer : Scheme → Proto L
  pub new_raw_serializer : Scheme → Proto L
  pub Framer : Type 0
  pub length_delimited : Framer

-- `newServerScheme`: what it registers.
unfoldable pub new_server_scheme : List SchemeEntry
new_server_scheme = meta_types (record { group = ""; version = "v1" }) ∷ []

module _ (L : Libraries) (P : Protobuf L) where
  -- A `runtime.StreamSerializerInfo`.
  pub record StreamInfo : Type 0 where
    pub encodes_as_text : Bool
    pub serializer : Serializer L
    pub framer : P.Framer

  -- What `init` makes of `typedScheme`; it panics with an error.
  unfoldable pub typed_scheme : Result L.Err P.Scheme
  typed_scheme = P.add_client_go P.empty_scheme >>= P.add_api_extensions

  -- A `protoRoundTripSerializer`.
  unfoldable pub proto_serializer : Proto L → Serializer L
  proto_serializer proto = record {
    encoder = record { identifier = proto_identifier L proto; encode = proto_encode L proto };
    decoder = proto_decode L proto;
  }

  -- `newProtoRoundTripSerializer`
  unfoldable pub new_proto_serializer : P.Scheme → Serializer L
  unfolding proto_serializer
  new_proto_serializer scheme = proto_serializer (P.new_serializer scheme)

  -- `newProtoRoundTripStreamSerializer`
  unfoldable pub new_proto_stream_serializer : P.Scheme → StreamInfo
  unfolding proto_serializer
  new_proto_stream_serializer scheme = record {
    encodes_as_text = false;
    serializer = proto_serializer (P.new_raw_serializer scheme);
    framer = P.length_delimited;
  }

  -- A `runtime.SerializerInfo`; its stream serializer may be nil.
  abbrev pub Info : Type 0
  Info = SerializerInfo (Serializer L) (Option StreamInfo)

  -- A `runtime.NegotiatedSerializer`, as `serializer.CodecFactory` is one.
  pub record Negotiator : Type 0 where
    pub infos : List Info
    pub encoder_for_version : Encoder L → L.Versioner → Encoder L
    pub decoder_to_version : Decoder L → L.Versioner → Decoder L

  -- `DecoderToVersion`, and the `defaultingDecoder` that it makes.
  unfoldable pub defaulting_decoder : Negotiator → Decoder L → L.Versioner → Decoder L
  defaulting_decoder codecs decoder gv = defaulting_decode L (codecs.decoder_to_version decoder gv)

  -- `defaultingNegotiatedSerializer`, of the codecs of `newScheme` and of `typedScheme`.
  unfoldable pub negotiated : P.Scheme → Negotiator → Negotiator
  unfolding new_proto_serializer new_proto_stream_serializer defaulting_decoder
  negotiated scheme codecs = record {
    infos =
        supported_media_types (new_proto_serializer scheme)
          (some (new_proto_stream_serializer scheme)) codecs.infos;
    encoder_for_version =
        λ encoder gv. split_encoder L encoder (codecs.encoder_for_version encoder gv);
    decoder_to_version = defaulting_decoder codecs;
  }
