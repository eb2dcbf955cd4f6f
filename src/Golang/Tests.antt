-- ===== src/Golang/Tests.antt =====
-- Runs of the path functions on paths whose results are documented.
use sharm.Common.{◌≡◌, refl, text, text_beq, []}
use sharm.Golang.FilePath.{clean, join, base, ext}

clean_dots : clean (text "/a/../../b//./c/") ≡ text "/b/c"
unfolding clean text_beq
clean_dots = refl

clean_relative : clean (text "a/../../b") ≡ text "../b"
unfolding clean text_beq
clean_relative = refl

join_dir : join (text "/data") (text "uploads") ≡ text "/data/uploads"
unfolding join text_beq
join_dir = refl

base_file : base (text "/tmp/x/video.mp4//") ≡ text "video.mp4"
unfolding base text_beq
base_file = refl

ext_last : ext (text "dir.d/archive.tar.gz") ≡ text ".gz"
unfolding ext
ext_last = refl

ext_none : ext (text "dir.d/README") ≡ []
unfolding ext
ext_none = refl
