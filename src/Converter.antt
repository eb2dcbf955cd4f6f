-- ===== src/Converter.antt =====
-- internal/adapter/converter/ffmpeg/converter.go: which commands are run for a conversion, a
-- thumbnail and a probe. What ffprobe prints, as json.Unmarshal parses it, is the
-- parameter `probe_of`.
pub mod Safety
use sharm.Common.{
  ℤ, pos, negsuc, zero, suc, ℕ, Bool, true, false, Option, none, some, List, [], ◌∷◌, ◌++◌, Text,
  text, ◌==◌, nat_eq, text_eq, any, if◌then◌else◌, ltb,
}
use sharm.Golang.FilePath.{join}
use sharm.Golang.Decimal.{format_int}
use sharm.Domain.{Codec, av1, h264, opus}
use sharm.Domain.Errors.{Error, plain, wrapped}
use sharm.Domain.Errors
use sharm.Domain.Probe.{ProbeResult}
use sharm.World.{
  M, Outcome, ok, err, panic, pure, throw, ◌>>=◌, ◌>>◌, or_wrap, attempt, call, run_command,
}

pub empty_path : Error
empty_path = plain (text "empty path")

pub invalid_path : Error
invalid_path = plain (text "invalid path: contains null bytes")

unfoldable pub validate_path : Text → M (Unit {0})
validate_path path =
    if path == []
    then throw empty_path
    else if any (λ c. c == 0) path
    then throw invalid_path
    else pure tt

abbrev pub validate_both : Text → Text → Text → M (Unit {0})
validate_both input output what = do
  or_wrap (text "invalid input path") (validate_path input)
  or_wrap what (validate_path output)

abbrev pub ffmpeg : List Text → M (Unit {0})
ffmpeg args = run_command (text "ffmpeg") args >> call (pure tt)

-- The frame rate, where one is asked for.
abbrev rate : ℤ → List Text
rate (pos zero) = []
rate (pos (suc n)) = text "-r" ∷ format_int (suc n) ∷ []
rate (negsuc n) = []

abbrev input_args : Text → List Text
input_args input = text "-nostdin" ∷ text "-i" ∷ input ∷ []

abbrev output_args : Text → List Text
output_args output = text "-y" ∷ output ∷ []

abbrev av1_args : List Text
av1_args =
    text "-c:v"
    ∷ text "libsvtav1"
    ∷ text "-crf"
    ∷ text "30"
    ∷ text "-preset"
    ∷ text "6"
    ∷ text "-c:a"
    ∷ text "libopus"
    ∷ text "-b:a"
    ∷ text "128k"
    ∷ []

abbrev h264_args : List Text
h264_args =
    text "-c:v"
    ∷ text "libx264"
    ∷ text "-crf"
    ∷ text "23"
    ∷ text "-preset"
    ∷ text "medium"
    ∷ text "-c:a"
    ∷ text "aac"
    ∷ text "-b:a"
    ∷ text "128k"
    ∷ text "-movflags"
    ∷ text "+faststart"
    ∷ []

abbrev opus_args : List Text
opus_args = text "-c:a" ∷ text "libopus" ∷ text "-b:a" ∷ text "128k" ∷ text "-vn" ∷ []

abbrev thumbnail_args : List Text
thumbnail_args =
    text "-vframes" ∷ text "1" ∷ text "-ss" ∷ text "00:00:01" ∷ text "-f" ∷ text "image2" ∷ []

abbrev probe_args : List Text
probe_args =
    text "-v"
    ∷ text "quiet"
    ∷ text "-print_format"
    ∷ text "json"
    ∷ text "-show_format"
    ∷ text "-show_streams"
    ∷ []

unfoldable pub convert_av1 : Text → Text → ℤ → M (Unit {0})
convert_av1 input output fps = do
  validate_both input output (text "invalid output path")
  ffmpeg (input_args input ++ (av1_args ++ (rate fps ++ output_args output)))

unfoldable pub convert_h264 : Text → Text → ℤ → M (Unit {0})
convert_h264 input output fps = do
  validate_both input output (text "invalid output path")
  ffmpeg (input_args input ++ (h264_args ++ (rate fps ++ output_args output)))

unfoldable pub convert_opus : Text → Text → M (Unit {0})
convert_opus input output = do
  validate_both input output (text "invalid output path")
  ffmpeg (input_args input ++ (opus_args ++ output_args output))

unfoldable pub thumbnail : Text → Text → M (Unit {0})
thumbnail input output = do
  validate_both input output (text "invalid output path")
  ffmpeg (input_args input ++ (thumbnail_args ++ output_args output))

-- AV1 first, H264 if that fails.
abbrev pub after_av1 : Text → Text → Text → Option (Unit {0}) → M (Text × Codec)
after_av1 input webm mp4 (some _) = pure (webm, av1)
after_av1 input webm mp4 none = do
  or_wrap (text "both AV1 and H264 conversion failed") (convert_h264 input mp4 (pos 0))
  pure (mp4, h264)

unfoldable pub convert : Text → Text → Text → M (Text × Codec)
convert input dir id = do
  validate_both input dir (text "invalid output dir")
  let base = join dir id
  tried ← attempt (convert_av1 input (base ++ text ".webm") (pos 0))
  after_av1 input (base ++ text ".webm") (base ++ text ".mp4") tried

abbrev convert_to : Codec → M (Unit {0}) → Text → M Text
convert_to codec run output = do or_wrap (text "convert to " ++ codec) run; pure output

unfoldable pub convert_codec : Text → Text → Text → Codec → ℤ → M Text
convert_codec input dir id codec fps = do
  validate_both input dir (text "invalid output dir")
  let base = join dir id
  if codec == av1
      then convert_to codec (convert_av1 input (base ++ text "_av1.webm") fps)
          (base ++ text "_av1.webm")
      else if codec == h264
      then convert_to codec (convert_h264 input (base ++ text "_h264.mp4") fps)
          (base ++ text "_h264.mp4")
      else if codec == opus
      then convert_to codec (convert_opus input (base ++ text "_opus.ogg"))
          (base ++ text "_opus.ogg")
      else throw (plain (text "unsupported codec: " ++ codec))

-- json.Unmarshal of what ffprobe has printed.
unfoldable pub parsed : Errors.Result ProbeResult → M ProbeResult
parsed (Errors.ok result) = pure result
parsed (Errors.err e) = throw (wrapped (text "failed to parse ffprobe output") e)

unfoldable pub probe : (Text → Errors.Result ProbeResult) → Text → M ProbeResult
unfolding parsed
probe probe_of input = do
  or_wrap (text "invalid input path") (validate_path input)
  or_wrap (text "ffprobe failed") (run_command (text "ffprobe") (probe_args ++ (input ∷ [])))
  parsed (probe_of input)
