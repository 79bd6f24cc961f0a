-- ===== src/Video/Negotiation.antt =====
-- crates/wx-video/src/encode.rs: which stream two machines agree on.
use win_xtend.Prelude.{
  ◌≡◌, Bool, true, false, not, ◌&&◌, ◌==◌, if◌then◌else◌, Option, none, some, List, [], ◌∷◌, any_of,
  find_first, arith,
}
use win_xtend.Prelude.Results.{Result, ok, err}
use win_xtend.Net.Control.{VideoCodec, h264, vp8, vp9, av1, VideoConfig}
use win_xtend.Agent.Clipboard.{Compression, uncompressed, zstd}
use win_xtend.Video.Packet.{EncodeError, no_implementation, PassthroughEncoder, Zstd, new_encoder}

pub data StreamFormat : Type 0 where
  passthrough_stream : Compression → StreamFormat
  codec_stream : VideoCodec → StreamFormat

abbrev pub same_codec : VideoCodec → VideoCodec → Bool
same_codec h264 h264 = true
same_codec vp8 vp8 = true
same_codec vp9 vp9 = true
same_codec av1 av1 = true
same_codec a b = false

abbrev pub has_codec : List VideoCodec → VideoCodec → Bool
has_codec codecs c = any_of (λ k. same_codec k c) codecs

abbrev pub codec_preference : List VideoCodec
codec_preference = h264 ∷ av1 ∷ vp9 ∷ vp8 ∷ []

abbrev pub supported_codecs : List VideoCodec
supported_codecs = []

unfoldable pub preferred_codec : List VideoCodec → List VideoCodec → Option VideoCodec
preferred_codec source sink =
    find_first (λ c. has_codec source c && has_codec sink c) codec_preference

pub data Fallback : Type 0 where
  passthrough : Compression → Fallback
  refuse : Fallback

pub data Negotiated : Type 0 where
  codec_used : VideoCodec → Negotiated
  lossless : Compression → Negotiated

pub data NegotiateError : Type 0 where
  no_common_codec : VideoCodec → NegotiateError
  zero_fps zero_dimension : NegotiateError
  not_compiled : Compression → NegotiateError

unfoldable pub validate_config : VideoConfig → Option NegotiateError
validate_config config =
    if config.max_fps == 0
    then some zero_fps
    else if config.max_dimension == 0
    then some zero_dimension
    else none

module _ (z : Zstd) where
  unfoldable pub fall_back : VideoCodec → Fallback → Result NegotiateError Negotiated
  fall_back requested refuse = err (no_common_codec requested)
  fall_back requested (passthrough uncompressed) = ok (lossless uncompressed)
  fall_back requested (passthrough zstd) =
      if not z.available then err (not_compiled zstd) else ok (lossless zstd)

  unfoldable pub negotiate :
      VideoConfig → List VideoCodec → Fallback → Result NegotiateError Negotiated
  unfolding validate_config fall_back
  negotiate config source_supports fallback = elim (validate_config config) [
    | some e ↦ err e
    | none ↦
        if has_codec source_supports config.codec
        then ok (codec_used config.codec)
        else fall_back config.codec fallback
  ]

  unfoldable pub encoder_for : Negotiated → Result EncodeError PassthroughEncoder
  unfolding new_encoder
  encoder_for (lossless compression) = new_encoder z compression
  encoder_for (codec_used c) = err (no_implementation c)

-- Which codec is preferred depends only on which codecs each side has, not on their order, and not
-- on which side is asked.
pub preferred_codec-agree :
    (source sink source' sink' : List VideoCodec)
    → ((c : VideoCodec) → has_codec source c ≡ has_codec source' c)
    → ((c : VideoCodec) → has_codec sink c ≡ has_codec sink' c)
    → preferred_codec source sink ≡ preferred_codec sink' source'
unfolding preferred_codec
preferred_codec-agree source sink source' sink' h k =
    ground (arith, h h264, h av1, h vp9, h vp8, k h264, k av1, k vp9, k vp8)
