-- ===== src/Codec/Negotiated.antt =====
-- Objects in protobuf, through the serializers that are negotiated for it.
use aggregated_apiserver_ope.Prelude.{◌≡◌, ◌≢◌, ◌⊎◌, false, some, List, [], ◌∷◌, string_eq}
use aggregated_apiserver_ope.Codec.{Libraries, supported_media_types}
use aggregated_apiserver_ope.Codec.RoundTrip.{ProtoLaws, RawLaws, RoundTrips, OnlyWritten}
use aggregated_apiserver_ope.Codec.Negotiation.{
  Protobuf, StreamInfo, Serializer, Info, Negotiator, new_proto_serializer,
  new_proto_stream_serializer, negotiated,
}

module _ (L : Libraries) (P : Protobuf L) (scheme : P.Scheme)
    (laws : ProtoLaws L (P.new_serializer scheme))
    (raw_laws : RawLaws L (P.new_raw_serializer scheme)) (codecs : Negotiator L P)
    (gv : L.Versioner) (content : L.Content) where
  -- The content is written by the encoder for the version of a serializer, and read by the
  -- serializer.
  abbrev pub Whole : Serializer L → Type 0
  Whole s =
      RoundTrips L (P.new_serializer scheme) laws
        ((negotiated L P scheme codecs).encoder_for_version s.encoder gv).encode s.decoder content

  -- The content is written to a stream by the encoder for the version of a serializer, which reads
  -- nothing.
  abbrev pub InStream : Serializer L → Type 0
  InStream s =
      OnlyWritten L (P.new_raw_serializer scheme)
        ((negotiated L P scheme codecs).encoder_for_version s.encoder gv).encode s.decoder content

  -- The offer for protobuf: objects round trip through its serializer and its strict one, and its
  -- stream serializer writes them, delimited by lengths.
  abbrev pub ForProtobuf : Info L P → Type 0
  ForProtobuf info =
      Whole info.serializer
      × Whole info.strict_serializer
      × ((stream : StreamInfo L P) × (info.stream_serializer ≡ some stream)
          × (stream.framer ≡ P.length_delimited)
          × (stream.encodes_as_text ≡ false)
          × InStream stream.serializer)

  -- The offers, one by one, of the library's codecs and of the server.
  abbrev pub Offered : List (Info L P) → List (Info L P) → Type 0
  Offered [] [] = Unit
  Offered (before ∷ rest) (after ∷ others) =
      (after.media_type ≡ before.media_type)
      × (((before.media_type ≢ "application/vnd.kubernetes.protobuf") × (after ≡ before))
          ⊎ ((before.media_type ≡ "application/vnd.kubernetes.protobuf") × ForProtobuf after))
      × Offered rest others
  Offered _ _ = ⊥

  abbrev given : List (Info L P) → List (Info L P)
  given =
      supported_media_types (new_proto_serializer L P scheme)
        (some (new_proto_stream_serializer L P scheme))
