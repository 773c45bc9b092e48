-- ===== src/Shell/Tokenize/Words.antt =====
-- What `tokenize` finds: the words between the blanks.
use sysalgos.Base.{
  ℕ, suc, ◌+◌, ◌≤◌, ◌<◌, ◌≡◌, refl, sym, ◌∙◌, ap, ◌≢◌, true, false, List, [], ◌∷◌, ◌++◌, append-nil,
  append_assoc, arith, ltb, lt→ltb, Bool-cases, inl, inr, length, length-append, ok, undefined,
}
use sysalgos.Libc.Text.{Bytes, All}
use sysalgos.Shell.Tokenize.{is_blank, max_token_size, max_num_tokens, add_token, scan, tokenize}

abbrev pub IsBlank : ℕ → Type 0
IsBlank c = is_blank c ≡ true

abbrev pub IsInk : ℕ → Type 0
IsInk c = is_blank c ≡ false

-- A word and the blanks behind it.
abbrev pub IsSpaced : Bytes × Bytes → Type 0
IsSpaced (word, gap) =
    (word ≢ []) × All IsInk word × (length word < max_token_size) × (gap ≢ []) × All IsBlank gap

-- A line of such words.
abbrev pub spell : List (Bytes × Bytes) → Bytes
spell [] = []
spell ((word, gap) ∷ line) = word ++ (gap ++ spell line)

abbrev pub words : List (Bytes × Bytes) → List Bytes
words [] = []
words ((word, gap) ∷ line) = word ∷ words line

scan_word :
    (word rest token : Bytes) (tokens : List Bytes)
    → All IsInk word
    → length token + length word ≤ max_token_size
    → scan (word ++ rest) token tokens ≡ scan rest (token ++ word) tokens
unfolding scan
scan_word [] rest token tokens _ h = rw append-nil
scan_word (c ∷ word) rest token tokens (hc, hw) h =
    rw (lt→ltb (length token) max_token_size (omega arith), hc)
      (scan_word word rest (token ++ c ∷ []) tokens hw (omega (arith, length-append token (c ∷ [])))
        ∙ rw append_assoc)

scan_gap :
    (gap rest : Bytes) (tokens : List Bytes)
    → All IsBlank gap
    → scan (gap ++ rest) [] tokens ≡ scan rest [] tokens
unfolding scan add_token
scan_gap [] rest tokens _ = refl
scan_gap (c ∷ gap) rest tokens (hc, hg) = rw hc (scan_gap gap rest tokens hg)

scan_end :
    (c : ℕ) (rest token : Bytes) (tokens : List Bytes)
    → IsBlank c
    → token ≢ []
    → length token < max_token_size
    → length tokens < max_num_tokens
    → scan (c ∷ rest) token tokens ≡ scan rest [] (tokens ++ token ∷ [])
unfolding scan add_token
scan_end c rest [] tokens b ne h k = absurd (ne refl)
scan_end c rest (d ∷ token) tokens b ne h k =
    rw (lt→ltb (length (d ∷ token)) max_token_size h, b, lt→ltb (length tokens) max_num_tokens k)

scan_line :
    (line : List (Bytes × Bytes)) (end : Bytes) (tokens : List Bytes)
    → All IsSpaced line
    → length tokens + length line ≤ max_num_tokens
    → scan (spell line ++ end) [] tokens ≡ scan end [] (tokens ++ words line)
scan_line [] end tokens _ h = rw append-nil
scan_line ((word, []) ∷ line) end tokens ((ne, ink, short, gap, blank), rest) h = absurd (gap refl)
scan_line ((word, c ∷ gap) ∷ line) end tokens ((ne, ink, short, _, (hc, blank)), rest) h =
    rw (append_assoc, append_assoc)
      (scan_word word (c ∷ (gap ++ (spell line ++ end))) [] tokens ink (omega arith)
        ∙ scan_end c (gap ++ (spell line ++ end)) word tokens hc ne short (omega arith)
        ∙ scan_gap gap (spell line ++ end) (tokens ++ word ∷ []) blank
        ∙ scan_line line end (tokens ++ word ∷ []) rest
            (omega (arith, length-append tokens (word ∷ [])))
        ∙ rw append_assoc)

pub length-words : (line : List (Bytes × Bytes)) → length (words line) ≡ length line
length-words [] = refl
length-words (word ∷ line) = ap suc (length-words line)

-- A line of fewer than 64 words of fewer than 64 bytes, each with blanks behind it, and with or without
-- blanks in front of the first, is split into exactly its words.
pub tokenize-spell :
    (lead : Bytes) (line : List (Bytes × Bytes))
    → All IsBlank lead
    → All IsSpaced line
    → length line < max_num_tokens
    → tokenize (lead ++ spell line) ≡ ok (words line)
unfolding tokenize scan
tokenize-spell lead line b s h =
    scan_gap lead (spell line) [] b
    ∙ ap (λ t. scan t [] []) (sym (append-nil (spell line)))
    ∙ scan_line line [] [] s (omega arith)
    ∙ rw (lt→ltb (length (words line)) max_num_tokens (omega (arith, length-words line)))

full_token :
    (token : Bytes) → max_token_size ≤ length token → ltb (length token) max_token_size ≡ false
full_token token h = ground arith

scan_overrun :
    (word : Bytes) (c : ℕ) (rest token : Bytes) (tokens : List Bytes)
    → All IsInk word
    → max_token_size ≤ length token + length word
    → scan (word ++ c ∷ rest) token tokens ≡ undefined
unfolding scan
scan_overrun [] c rest token tokens ink h = rw (full_token token (omega arith))
scan_overrun (d ∷ word) c rest token tokens (hd, ink) h =
    elim (Bool-cases (ltb (length token) max_token_size)) [
      | inr full ↦ rw full
      | inl room ↦
          rw (room, hd)
            (scan_overrun word c rest (token ++ d ∷ []) tokens ink
              (omega (arith, length-append token (d ∷ []))))
    ]

-- A word of 64 bytes or more, with a byte behind it, overruns `token`, wherever in the line it stands.
pub tokenize-overrun :
    (lead : Bytes) (line : List (Bytes × Bytes)) (word : Bytes) (c : ℕ) (rest : Bytes)
    → All IsBlank lead
    → All IsSpaced line
    → length line ≤ max_num_tokens
    → All IsInk word
    → max_token_size ≤ length word
    → tokenize (lead ++ (spell line ++ (word ++ c ∷ rest))) ≡ undefined
unfolding tokenize
tokenize-overrun lead line word c rest b s n ink h =
    scan_gap lead (spell line ++ (word ++ c ∷ rest)) [] b
    ∙ scan_line line (word ++ c ∷ rest) [] s (omega arith)
    ∙ scan_overrun word c rest [] (words line) ink (omega arith)

-- A line of 64 such words leaves no place for the NULL behind the last token.
pub tokenize-crowd :
    (lead : Bytes) (line : List (Bytes × Bytes))
    → All IsBlank lead
    → All IsSpaced line
    → length line ≡ max_num_tokens
    → tokenize (lead ++ spell line) ≡ undefined
unfolding tokenize scan
tokenize-crowd lead line b s h =
    scan_gap lead (spell line) [] b
    ∙ ap (λ t. scan t [] []) (sym (append-nil (spell line)))
    ∙ scan_line line [] [] s (omega arith)
    ∙ rw (length-words line, h)
