-- ===== src/Domain/Probe.antt =====
-- probe.go: what ffprobe reports of a file, and the stream that gives its dimensions.
use sharm.Common.{ℕ, Option, none, some, List, [], ◌∷◌, Text, text, ◌==◌, text_eq, if◌then◌else◌}

pub record ProbeFormat : Type 0 where
  pub format_name : Text
  pub format_long : Text
  pub duration : Text
  pub size : Text
  pub bit_rate : Text
  pub nb_streams : ℕ
  pub tags : List (Text × Text)

pub record ProbeStream : Type 0 where
  pub index : ℕ
  pub codec_type : Text
  pub codec_name : Text
  pub codec_long : Text
  pub width : ℕ
  pub height : ℕ
  pub pix_fmt : Text
  pub color_space : Text
  pub color_range : Text
  pub r_frame_rate : Text
  pub avg_frame_rate : Text
  pub duration : Text
  pub bit_rate : Text
  pub sample_rate : Text
  pub channels : ℕ
  pub channel_layout : Text
  pub bits_per_sample : ℕ
  pub tags : List (Text × Text)

pub record ProbeResult : Type 0 where
  pub format : ProbeFormat
  pub streams : List ProbeStream
  pub raw_json : Text

unfoldable pub stream_of_type : Text → List ProbeStream → Option ProbeStream
stream_of_type t [] = none
stream_of_type t (s ∷ ss) = if s.codec_type == t then some s else stream_of_type t ss

unfoldable pub video_stream : ProbeResult → Option ProbeStream
unfolding stream_of_type
video_stream p = stream_of_type (text "video") p.streams

unfoldable pub audio_stream : ProbeResult → Option ProbeStream
unfolding stream_of_type
audio_stream p = stream_of_type (text "audio") p.streams

unfoldable pub dimensions : ProbeResult → ℕ × ℕ
unfolding video_stream
dimensions p = elim (video_stream p) [ some s ↦ (s.width, s.height) | none ↦ (0, 0) ]
