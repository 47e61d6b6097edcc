-- ===== src/Klib/Bitops/Tests.antt =====
-- Searches in a map of two words of 16 bits, and a bit of a map of words of 64 bits.
use risc_v_workshop.Prelude.{ℕ, ◌*◌, ◌/◌, ◌^◌, ◌<◌, inr, refl, arith, Ensures, ◌==◌, if◌then◌else◌}
use risc_v_workshop.Klib.Bitops.{bitops_ffs, bitops_fls}
use risc_v_workshop.Klib.Bitops.Maps.{
  UpFinds, DownFinds, bitops_ffs-Finds_map, bitops_fls-Finds_map, IsElementSize,
}

abbrev two_words : ℕ → ℕ
two_words i = if i == 1 then 40 else 0

half_word : IsElementSize 2
half_word = inr (inr refl)

two_words_fit : (i : ℕ) → two_words i < 2 ^ (8 * 2)
two_words_fit i = ground arith

bitops_ffs-Finds_map_example :
    Ensures (UpFinds 2 two_words half_word two_words_fit 0 (4 / 2)) (bitops_ffs two_words 4 2)
bitops_ffs-Finds_map_example =
    bitops_ffs-Finds_map 2 two_words half_word two_words_fit 4 (omega arith)

bitops_fls-Finds_map_example :
    Ensures (DownFinds 2 two_words half_word two_words_fit (4 / 2)) (bitops_fls two_words 4 2)
bitops_fls-Finds_map_example =
    bitops_fls-Finds_map 2 two_words half_word two_words_fit 4 (omega arith)
