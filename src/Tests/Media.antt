-- ===== src/Tests/Media.antt =====
-- Transcripts and images.
use bench_cli.Base.{ℕ, ◌≤◌, ◌≡◌, refl, some, List, [], ◌∷◌, ◌==◌, ==_iff, ok}
use bench_cli.Text.{codes}
use bench_cli.Asr.{english, edit_distance}
use bench_cli.Asr.Distance.{Edit, nothing, keep, replace, edit_distance_lem}
use bench_cli.Asr.Words.{english-english}
use bench_cli.Vlm.{ImageData, ImageCache, new}
use bench_cli.Vlm.Paired.{IsValid, cache_of}
use bench_cli.Vlm.Lru.{Use, get_image, put_image, run, run_list, images, run-new}

abbrev one_two : List ℕ
one_two = 1 ∷ 2 ∷ []

abbrev one_three : List ℕ
one_three = 1 ∷ 3 ∷ []

edit_distance_lem_example :
    (d : ℕ) × (edit_distance ◌==◌ one_two one_three ≡ some d) × Edit one_two one_three d × (d ≤ 1)
edit_distance_lem_example =
    edit_distance_lem ◌==◌ ==_iff one_two one_three 1
      (replace (1 ∷ []) (1 ∷ []) 0 2 3 (keep [] [] 0 1 nothing))

english-english_example : english (english (codes "i can't")) ≡ english (codes "i can't")
english-english_example = english-english (codes "i can't")

abbrev image : ℕ → ImageData
image size = record {
  base64_data = codes "AA";
  mime_type = codes "image/png";
  width = 1;
  height = 1;
  size_bytes = size;
  url = codes "a.png";
}

-- Three images in a cache of two, with a use of the first before the third.
abbrev uses : List Use
uses =
    put_image (codes "a") (image 1)
    ∷ put_image (codes "b") (image 2)
    ∷ get_image (codes "a")
    ∷ put_image (codes "c") (image 3)
    ∷ []

abbrev empty_cache : ImageCache
empty_cache = cache_of [] [] 2

made : new 2 ≡ ok empty_cache
unfolding new
made = refl

run-new_example :
    IsValid (run uses empty_cache) × (images (run uses empty_cache) ≡ run_list 2 uses [])
run-new_example = run-new 2 empty_cache uses made
