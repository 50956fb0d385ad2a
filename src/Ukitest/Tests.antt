-- ===== src/Ukitest/Tests.antt =====
-- A small signed image.
use actions.Prelude.{ℕ, ◌≡◌, refl, true, List, [], ◌∷◌, Result, ok, length, ◌<◌, ◌^◌, arith}
use actions.Text.{codes, text_eq, trim_right}
use actions.Text.Utf8.{trim_space_bytes}
use actions.Uki.{Bytes, Location, inspect_sections, find_cmdlines, align}
use actions.Ukitest.Inspected.{build-inspect_sections}
use actions.Ukitest.Samples.{data_section}
use actions.Ukitest.{Section, build, build_headers, headers_bytes, first_va, headers_size}

abbrev small : List Section
small =
    data_section (codes ".osrel") (codes "ID=talos\n")
    ∷ data_section (codes ".cmdline") (codes "quiet")
    ∷ []

abbrev size_of : Result Bytes → ℕ
size_of (ok bytes) = length bytes
size_of _ = 0

headers_run : length (headers_bytes small true) ≡ 472
unfolding headers_bytes
headers_run = refl

size_runs : size_of (build small true) ≡ 1600
unfolding build align
size_runs = refl

abbrev bytes_of : Result Bytes → Bytes
bytes_of (ok bytes) = bytes
bytes_of _ = []

abbrev small_image : Bytes
small_image = bytes_of (build small true)

built : build small true ≡ ok small_image
unfolding build align
built = refl

small_image_lt : length small_image < 2 ^ 32
unfolding build align
small_image_lt = omega arith

build-inspect_sections_example :
    (locations : List Location) × (inspect_sections small_image
        (build_headers first_va (headers_size small) small)
        (find_cmdlines 0 (build_headers first_va (headers_size small) small))
      ≡ ok (codes "quiet" ∷ [], locations))
unfolding text_eq trim_space_bytes trim_right
build-inspect_sections_example = build-inspect_sections small true small_image built small_image_lt
