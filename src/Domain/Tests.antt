-- ===== src/Domain/Tests.antt =====
-- Runs of the questions on variants, with their results.
use sharm.Common.{◌≡◌, ◌↔◌, refl, pos, some, none, true, false, List, [], ◌∷◌, text_eq, text, All}
use sharm.Domain.{Media, MediaType, MediaStatus, Variant, VariantStatus, Codec, av1, h264, opus}
use sharm.Domain.Variants.{
  is_done, IsFirst, IsTerminal, all_variants_terminal, has_done_variant, best_variant,
  variant_by_codec, best_variant-IsFirst, all_variants_terminal-best_variant,
}

abbrev variant : Codec → VariantStatus → Variant
variant codec status = record {
  id = 1;
  media_id = text "m";
  codec = codec;
  path = [];
  file_size = 0;
  width = 0;
  height = 0;
  status = status;
  error_message = [];
  created_at = 0;
}

abbrev media_with : List Variant → Media
media_with variants = record {
  id = text "m";
  type = MediaType.video;
  original_name = text "a.mov";
  original_path = text "/data/a.mov";
  converted_path = [];
  status = MediaStatus.processing;
  codec = [];
  error_message = [];
  retention_days = pos 7;
  file_size = 0;
  width = 0;
  height = 0;
  thumb_path = [];
  created_at = 0;
  expires_at = 0;
  variants = variants;
  probe_json = [];
}

-- AV1 failed, H264 is done.
abbrev half : Media
half = media_with (variant av1 VariantStatus.failed ∷ variant h264 VariantStatus.done ∷ [])

half_best : best_variant half ≡ some (variant h264 VariantStatus.done)
unfolding best_variant sharm.Domain.Variants.best
half_best = refl

best_variant-IsFirst_example :
    (best_variant half ≡ some (variant h264 VariantStatus.done))
    ↔ IsFirst (λ w. is_done w.status) (variant h264 VariantStatus.done) half.variants
best_variant-IsFirst_example = best_variant-IsFirst half (variant h264 VariantStatus.done)

all_variants_terminal-best_variant_example :
    ((all_variants_terminal half ≡ true) ↔ All IsTerminal half.variants)
    × ((has_done_variant half ≡ false) ↔ (best_variant half ≡ none))
    × (all_variants_terminal half ≡ true
        → best_variant half ≡ none
        → All (λ v. v.status ≡ VariantStatus.failed) half.variants)
all_variants_terminal-best_variant_example = all_variants_terminal-best_variant half
