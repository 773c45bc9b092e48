-- ===== src/Shell/Tests.antt =====
-- Concrete runs of the shell's tokenizer and of its table of jobs, and the theorems at them.
use sysalgos.Base.{
  ℕ, zero, suc, ◌≡◌, refl, Bool, List, [], ◌∷◌, ◌++◌, arith, ◌==◌, replicate, ok, undefined,
}
use sysalgos.Libc.Text.{Bytes, All, codes}
use sysalgos.Shell.Tokenize.{add_token, scan, tokenize}
use sysalgos.Shell.Tokenize.Words.{IsInk, IsSpaced, spell, tokenize-spell, tokenize-overrun}

tokenize_run : tokenize (codes "  sleep 10\n") ≡ ok (codes "sleep" ∷ codes "10" ∷ [])
unfolding tokenize scan add_token
tokenize_run = refl

abbrev sleep_line : List (Bytes × Bytes)
sleep_line = (codes "sleep", codes " ") ∷ (codes "10", codes " \n") ∷ []

sleep_line-IsSpaced : All IsSpaced sleep_line
sleep_line-IsSpaced = (
  (
    ground arith,
    (refl, (refl, (refl, (refl, (refl, tt))))),
    ground arith,
    ground arith,
    (refl, tt),
  ),
  ((ground arith, (refl, (refl, tt)), ground arith, ground arith, (refl, (refl, tt))), tt),
)

tokenize-spell_example :
    tokenize (codes "\t" ++ spell sleep_line) ≡ ok (codes "sleep" ∷ codes "10" ∷ [])
tokenize-spell_example =
    tokenize-spell (codes "\t") sleep_line (refl, tt) sleep_line-IsSpaced (omega arith)

All-replicate : (n c : ℕ) → IsInk c → All IsInk (replicate n c)
All-replicate zero c h = tt
All-replicate (suc n) c h = (h, All-replicate n c h)

tokenize-overrun_example :
    tokenize (codes "\t" ++ (spell sleep_line ++ (replicate 64 b'x' ++ b'\n' ∷ []))) ≡ undefined
tokenize-overrun_example =
    tokenize-overrun (codes "\t") sleep_line (replicate 64 b'x') b'\n' [] (refl, tt)
      sleep_line-IsSpaced (omega arith) (All-replicate 64 b'x' refl) (omega arith)

abbrev crowd : ℕ → List (Bytes × Bytes)
crowd n = replicate n (codes "a", codes " ")

crowd-IsSpaced : (n : ℕ) → All IsSpaced (crowd n)
crowd-IsSpaced zero = tt
crowd-IsSpaced (suc n) =
    ((ground arith, (refl, tt), ground arith, ground arith, (refl, tt)), crowd-IsSpaced n)

abbrev running : ℕ → Bool
running p = p == 7
