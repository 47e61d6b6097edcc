-- ===== src/Klib/Strings/Tests.antt =====
-- Comparing, searching and copying short strings.
use risc_v_workshop.Prelude.{ℕ, ◌≡◌, ◌↔◌, arith, [], ◌∷◌, length, All, List}
use risc_v_workshop.Klib.Strings.{strncmp, strstr, strncpy}
use risc_v_workshop.Klib.Strings.Compare.{IsChar, Starts, strncmp_iff}
use risc_v_workshop.Klib.Strings.Search.{StrstrOutcome, strstr-Outcome}
use risc_v_workshop.Klib.Strings.Copy.{written, smaller, strncpy-written}

abbrev ab : List ℕ
ab = 97 ∷ 98 ∷ []

abbrev abc : List ℕ
abc = 97 ∷ 98 ∷ 99 ∷ []

ab_chars : All IsChar ab
ab_chars = ((omega arith, omega arith), ((omega arith, omega arith), tt))

abc_chars : All IsChar abc
abc_chars =
    ((omega arith, omega arith), ((omega arith, omega arith), ((omega arith, omega arith), tt)))

strncmp_iff_example : (strncmp ab abc 3 ≡ 0) ↔ Starts 3 ab abc
strncmp_iff_example = strncmp_iff 97 2 (98 ∷ []) abc ab_chars abc_chars

strstr-Outcome_example : StrstrOutcome (98 ∷ 99 ∷ []) abc (strstr abc (98 ∷ 99 ∷ []))
strstr-Outcome_example = strstr-Outcome 98 (99 ∷ []) abc

strncpy-written_example :
    strncpy 10 ab 5 (λ p. 1) 12 ≡ written 10 ab (smaller (length ab) 5) (λ p. 1) 12
strncpy-written_example = strncpy-written ab 5 10 (λ p. 1) 12
