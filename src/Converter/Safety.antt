-- ===== src/Converter/Safety.antt =====
-- converter.go: the arguments that are handed to ffmpeg and ffprobe.
use sharm.Common.{
  ℤ, pos, negsuc, zero, suc, ℕ, ◌≡◌, ◌≢◌, refl, subst, ◌⊎◌, Bool, true, false, Option, none, some,
  List, [], ◌∷◌, ◌++◌, Text, text, ◌==◌, nat_eq, text_eq, text_beq_iff, any, all, All, All-append,
  arith, if◌then◌else◌, Bool-cases, inl, inr,
}
use mathlib.Core.List.{append_assoc}
use sharm.Golang.FilePath.{join}
use sharm.Golang.Decimal.{format_int, AreDigits, format_int-AreDigits, format_int-ne-nil}
use sharm.Domain.{Codec, av1, h264, opus}
use sharm.Domain.Errors.{Error, wrapped, plain}
use sharm.Domain.Errors
use sharm.Domain.Probe.{ProbeResult}
use sharm.World.{World, M, ok, err, pure, throw, ◌>>◌, or_wrap, call, run_command}
use sharm.World.Rules.{
  Preserves, Preserves-bind, Preserves-then, Preserves-or_wrap, Preserves-attempt, Preserves-if,
  Preserves-call, Preserves-pure, Preserves-throw,
}
use sharm.Converter.{
  parsed, empty_path, invalid_path, validate_path, validate_both, convert_av1, convert_h264,
  convert_opus, thumbnail, convert, convert_codec, probe, ffmpeg, rate, input_args, output_args,
  av1_args, h264_args, opus_args, thumbnail_args, probe_args, convert_to, after_av1,
}

-- An argument that a command line can carry: neither empty nor cut short by a null byte.
abbrev pub IsClean : Text → Type 0
IsClean a = (a ≢ []) × (any (λ c. c == 0) a ≡ false)

abbrev IsCleanCommand : Text × List Text → Type 0
IsCleanCommand c = All IsClean c.1

-- Every command that was run had such arguments only.
abbrev pub AreCleanCommands : World → Type 0
AreCleanCommands w = All IsCleanCommand w.commands

digits-IsClean : (s : Text) → AreDigits s → any (λ c. c == 0) s ≡ false
digits-IsClean [] h = refl
digits-IsClean (c ∷ s) h = ground (arith, h.0, digits-IsClean s h.1)

format_int-IsClean : (n : ℕ) → IsClean (format_int n)
format_int-IsClean n = (format_int-ne-nil n, digits-IsClean (format_int n) (format_int-AreDigits n))

pub skip_commands :
    (w : World) (os : List (Option Text))
    → AreCleanCommands w
    → AreCleanCommands (record w { outcomes = os })
skip_commands w os h = h

pub call-clean :
    {A : Type 0} {m : M A} → Preserves AreCleanCommands m → Preserves AreCleanCommands (call m)
call-clean = Preserves-call skip_commands

run_command-clean :
    (name : Text) (args : List Text)
    → All IsClean args
    → Preserves AreCleanCommands (run_command name args)
unfolding run_command
run_command-clean name args a = record {
  keeps = λ w i. All-append IsCleanCommand w.commands _ i (a, tt);
}

validate_path-cases :
    (path : Text) (w : World)
    → (IsClean path × (validate_path path w ≡ (ok tt, w)))
      ⊎ ((e : Error) × (validate_path path w ≡ (err e, w)))
unfolding validate_path pure throw
validate_path-cases path w = elim (Bool-cases (path == [])) [
  | inl empty ↦ inr (empty_path, rw empty)
  | inr full ↦ elim (Bool-cases (any (λ c. c == 0) path)) [
    | inl cut ↦ inr (invalid_path, rw (full, cut))
    | inr whole ↦ inl (((λ e. cc (full, (text_beq_iff path []).1 e)), whole), rw (full, whole))
  ]
]

is_clean : Text → Bool
is_clean [] = false
is_clean (c ∷ s) = if any (λ d. d == 0) (c ∷ s) then false else true

literals-IsClean : (args : List Text) → all is_clean args ≡ true → All IsClean args
unfolding is_clean
literals-IsClean [] h = tt
literals-IsClean ([] ∷ args) h = cc
literals-IsClean ((c ∷ s) ∷ args) h = elim (Bool-cases (any (λ d. d == 0) (c ∷ s))) [
  | inl cut ↦ absurd (ground (arith, cut))
  | inr whole ↦ (((λ e. cc), whole), literals-IsClean args (ground (arith, whole)))
]

rate-IsClean : (fps : ℤ) → All IsClean (rate fps)
unfolding is_clean
rate-IsClean (pos zero) = tt
rate-IsClean (pos (suc n)) =
    ((literals-IsClean (text "-r" ∷ []) refl).0, (format_int-IsClean (suc n), tt))
rate-IsClean (negsuc n) = tt

module _ (input output : Text) where
  validate_both-cases :
      (what : Text) (w : World)
      → (IsClean input × IsClean output × (validate_both input output what w ≡ (ok tt, w)))
        ⊎ ((e : Error) × (validate_both input output what w ≡ (err e, w)))
  unfolding or_wrap ◌>>◌
  validate_both-cases what w = elim (validate_path-cases input w) [
    | inr (e, bad) ↦ inr (wrapped (text "invalid input path") e, rw bad)
    | inl (ci, good) ↦ elim (validate_path-cases output w) [
      | inr (e, bad) ↦ inr (wrapped what e, rw (good, bad))
      | inl (co, fine) ↦ inl (ci, co, rw (good, fine))
    ]
  ]

  -- Both paths are checked before anything is run.
  validate_both-clean :
      {B : Type 0} (what : Text) {m : M B}
      → (IsClean input → IsClean output → Preserves AreCleanCommands m)
      → Preserves AreCleanCommands (validate_both input output what >> m)
  unfolding ◌>>◌
  validate_both-clean what h = record {
    keeps = λ w i. elim (validate_both-cases what w) [
      | inl (ci, co, good) ↦ rw good ((h ci co).keeps w i)
      | inr (e, bad) ↦ rw bad i
    ];
  }

  -- A run of ffmpeg between its checked paths.
  ffmpeg-clean :
      (args : List Text)
      → All IsClean args
      → Preserves AreCleanCommands (
          validate_both input output (text "invalid output path")
          >> ffmpeg (input_args input ++ (args ++ output_args output)))
  unfolding is_clean
  ffmpeg-clean args a =
      let (nostdin, (from, _)) = literals-IsClean (text "-nostdin" ∷ text "-i" ∷ []) refl in
      let (yes_, _) = literals-IsClean (text "-y" ∷ []) refl in
      validate_both-clean (text "invalid output path") (λ ci co.
        Preserves-then
          (run_command-clean (text "ffmpeg") _ (
            nostdin,
            (from, (ci, All-append IsClean args (output_args output) a (yes_, (co, tt)))),
          ))
          (call-clean (Preserves-pure tt)))

  -- As above, with a frame rate behind the fixed arguments.
  ffmpeg-rate-clean :
      (args : List Text) (fps : ℤ)
      → All IsClean args
      → Preserves AreCleanCommands (
          validate_both input output (text "invalid output path")
          >> ffmpeg (input_args input ++ (args ++ (rate fps ++ output_args output))))
  ffmpeg-rate-clean args fps a =
      subst
        (λ all_args. Preserves AreCleanCommands (
          validate_both input output (text "invalid output path")
          >> ffmpeg (input_args input ++ all_args)))
        (append_assoc args (rate fps) (output_args output))
        (ffmpeg-clean (args ++ rate fps) (All-append IsClean args (rate fps) a (rate-IsClean fps)))

  convert_av1-clean : (fps : ℤ) → Preserves AreCleanCommands (convert_av1 input output fps)
  unfolding convert_av1 is_clean
  convert_av1-clean fps = ffmpeg-rate-clean av1_args fps (literals-IsClean av1_args refl)

  convert_h264-clean : (fps : ℤ) → Preserves AreCleanCommands (convert_h264 input output fps)
  unfolding convert_h264 is_clean
  convert_h264-clean fps = ffmpeg-rate-clean h264_args fps (literals-IsClean h264_args refl)

  convert_opus-clean : Preserves AreCleanCommands (convert_opus input output)
  unfolding convert_opus is_clean
  convert_opus-clean = ffmpeg-clean opus_args (literals-IsClean opus_args refl)

  pub thumbnail-clean : Preserves AreCleanCommands (thumbnail input output)
  unfolding thumbnail is_clean
  thumbnail-clean = ffmpeg-clean thumbnail_args (literals-IsClean thumbnail_args refl)

validate_path-clean :
    {B : Type 0} (path what : Text) {m : M B}
    → (IsClean path → Preserves AreCleanCommands m)
    → Preserves AreCleanCommands (or_wrap what (validate_path path) >> m)
unfolding ◌>>◌ or_wrap
validate_path-clean path what h = record {
  keeps = λ w i. elim (validate_path-cases path w) [
    | inl (clean, good) ↦ rw good ((h clean).keeps w i)
    | inr (e, bad) ↦ rw bad i
  ];
}

pub parsed-Preserves : {I : World → Type 0} (r : Errors.Result ProbeResult) → Preserves I (parsed r)
unfolding parsed
parsed-Preserves (Errors.ok result) = Preserves-pure result
parsed-Preserves (Errors.err e) = Preserves-throw _

pub probe-clean :
    (probe_of : Text → Errors.Result ProbeResult) (input : Text)
    → Preserves AreCleanCommands (probe probe_of input)
unfolding probe is_clean
probe-clean probe_of input = validate_path-clean input (text "invalid input path") (λ clean.
    Preserves-then
      (Preserves-or_wrap (text "ffprobe failed") (
        run_command-clean (text "ffprobe") (probe_args ++ (input ∷ [])) (
          All-append IsClean probe_args (input ∷ []) (literals-IsClean probe_args refl)
            (clean, tt))))
      (parsed-Preserves (probe_of input)))

after_av1-clean :
    (input webm mp4 : Text) (tried : Option (Unit {0}))
    → Preserves AreCleanCommands (after_av1 input webm mp4 tried)
after_av1-clean input webm mp4 (some _) = Preserves-pure (webm, av1)
after_av1-clean input webm mp4 none =
    Preserves-then
      (Preserves-or_wrap (text "both AV1 and H264 conversion failed")
        (convert_h264-clean input mp4 (pos 0)))
      (Preserves-pure (mp4, h264))

pub convert-clean : (input dir id : Text) → Preserves AreCleanCommands (convert input dir id)
unfolding convert
convert-clean input dir id = validate_both-clean input dir (text "invalid output dir") (λ _ _.
    Preserves-bind (Preserves-attempt (convert_av1-clean input _ (pos 0)))
      (after_av1-clean input (join dir id ++ text ".webm") (join dir id ++ text ".mp4")))

convert_to-clean :
    (codec output : Text) {m : M (Unit {0})}
    → Preserves AreCleanCommands m
    → Preserves AreCleanCommands (convert_to codec m output)
convert_to-clean codec output h =
    Preserves-then (Preserves-or_wrap (text "convert to " ++ codec) h) (Preserves-pure output)

pub convert_codec-clean :
    (input dir id : Text) (codec : Codec) (fps : ℤ)
    → Preserves AreCleanCommands (convert_codec input dir id codec fps)
unfolding convert_codec
convert_codec-clean input dir id codec fps =
    validate_both-clean input dir (text "invalid output dir") (λ _ _.
      Preserves-if (codec == av1) (convert_to-clean codec _ (convert_av1-clean input _ fps)) (
        Preserves-if (codec == h264) (convert_to-clean codec _ (convert_h264-clean input _ fps)) (
          Preserves-if (codec == opus) (convert_to-clean codec _ (convert_opus-clean input _))
            (Preserves-throw (plain (text "unsupported codec: " ++ codec))))))
