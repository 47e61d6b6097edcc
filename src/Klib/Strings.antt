-- ===== src/Klib/Strings.antt =====
-- Routines on C strings: klib/strcmp.c, strncmp.c, strstr.c, strncpy.c, strcpy.c. A string is the list
-- of its characters before the terminator, each a byte from 1 to 255.
pub mod Compare
pub mod Search
pub mod Copy
mod Tests
use risc_v_workshop.Prelude.{
  ℕ, zero, suc, ◌+◌, ◌-◌, ◌%◌, Bool, true, false, ◌&&◌, ◌==◌, if◌then◌else◌, List, [], ◌∷◌, Option,
  none, some, update, is_empty,
}
use risc_v_workshop.Klib.Memory.{signed_char_difference}

-- the character that a pointer into a string points at, and the string behind it
abbrev pub first_char : List ℕ → ℕ
first_char [] = 0
first_char (c ∷ s) = c

abbrev pub behind : List ℕ → List ℕ
behind [] = []
behind (c ∷ s) = s

-- The loop of `strncmp`, with `rc` from the round before. It stops before it would read behind a
-- terminator.
unfoldable pub strncmp_loop : List ℕ → List ℕ → ℕ → ℕ → ℕ
strncmp_loop [] s2 n rc = rc
strncmp_loop (a ∷ s1) s2 zero rc = rc
strncmp_loop (a ∷ s1) s2 (suc n) rc =
    let diff = signed_char_difference a (first_char s2) in
    let rest = strncmp_loop s1 (behind s2) n diff in if diff == 0 then rest else diff

-- The result is the byte that stands for the `signed char`.
unfoldable pub strncmp : List ℕ → List ℕ → ℕ → ℕ
unfolding strncmp_loop
strncmp s1 s2 n = strncmp_loop s1 s2 n (if is_empty s2 then 0 else 255)

-- the inner loop of `strstr` and the test behind it: was the needle read to its end?
unfoldable pub needle_here : List ℕ → List ℕ → Bool
needle_here cq [] = true
needle_here [] (b ∷ cr) = false
needle_here (a ∷ cq) (b ∷ cr) = let rest = needle_here cq cr in if a == b then rest else false

-- the offset that the result has in the haystack
unfoldable pub strstr : List ℕ → List ℕ → Option ℕ
unfolding needle_here
strstr [] needle = none
strstr (a ∷ haystack) needle =
    let later = strstr haystack needle in
    if (a == first_char needle) && needle_here (a ∷ haystack) needle
    then some 0
    else elim later [ none ↦ none | some i ↦ some (suc i) ]

-- memory after the copy; both loops write at `dest` and go on
unfoldable pub strncpy : ℕ → List ℕ → ℕ → (ℕ → ℕ) → ℕ → ℕ
strncpy dest src zero mem = mem
strncpy dest [] (suc count) mem = mem
strncpy dest (c ∷ src) (suc count) mem = strncpy (dest + 1) src count (update mem dest c)

unfoldable pub strcpy : ℕ → List ℕ → (ℕ → ℕ) → ℕ → ℕ
strcpy dest [] mem = update mem dest 0
strcpy dest (c ∷ src) mem = strcpy (dest + 1) src (update mem dest c)
