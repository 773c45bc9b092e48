-- ===== src/Shell/Loop/Background.antt =====
-- Commands in the background.
use native.Mathlib.Nat.{zero-add, suc-add}
use sysalgos.Base.{
  ℕ, zero, suc, ◌+◌, ◌-◌, ◌≤◌, ◌<◌, ◌≡◌, ◌≢◌, dec_lt, sym, subst, refl, ◌∙◌, ap, Option, none, some,
  List, [], ◌∷◌, ◌++◌, append_assoc, map, arith, length, length-append, length-map,
  length-replicate, replicate, ok, undefined,
}
use sysalgos.Libc.Text.{Bytes, codes, strcmp_eq}
use sysalgos.Shell.Tokenize.{max_num_tokens, cells}
use sysalgos.Shell.Tokenize.Words.{words, length-words}
use sysalgos.Shell.Tokenize.Bounds.{shift_left-overrun}
use sysalgos.Shell.Loop.{Calls, State, background, dispatch, round}
use sysalgos.Shell.Loop.{argv, submit, submits}
use sysalgos.Shell.Jobs.{record_job, killed}
use sysalgos.Shell.Jobs.Live.{length-record_job, record_free, record_full, killed-le}
use sysalgos.Shell.Tokenize.Shift.{last_of, shift_left_lem}
use sysalgos.Shell.Loop.Rounds.{IsTyped, round-dispatch}

length-cells : (tokens : List Bytes) → length tokens ≤ 64 → length (cells 64 tokens) ≡ 64
length-cells tokens h = omega (
  arith,
  length-append (map some tokens) (replicate (64 - length tokens) none),
  length-map tokens (λ t. some t),
  length-replicate {A = Option Bytes} (64 - length tokens) none,
)

-- With the 64 places that `malloc` is asked for, every such line that begins with the word "&" is
-- undefined behaviour.
pub round-background :
    (c : Calls) (typed lead gap : Bytes) (line : List (Bytes × Bytes)) (s : State)
    → IsTyped typed lead ((codes "&", gap) ∷ line)
    → round max_num_tokens c typed s ≡ undefined
unfolding dispatch strcmp_eq background
round-background c typed lead gap line s t =
    round-dispatch max_num_tokens c typed lead ((codes "&", gap) ∷ line) s t
    ∙ rw (
        shift_left-overrun (cells 64 (codes "&" ∷ words line))
          (length-cells (codes "&" ∷ words line) (room t)))
  where
    room : IsTyped typed lead ((codes "&", gap) ∷ line) → suc (length (words line)) ≤ 64
    room (_, _, _, _, _, n) = omega (arith, length-words line)

spare : (k n : ℕ) → replicate {A = Option Bytes} (k + n) none ≡ replicate k none ++ replicate n none
spare zero n = rw zero-add
spare (suc k) n = rw suc-add (ap (λ t. none ∷ t) (spare k n))

argv-cells :
    (tokens : List Bytes) (xs ys : List (Option Bytes))
    → argv ((map some tokens ++ none ∷ xs) ++ ys) ≡ tokens
unfolding argv
argv-cells [] xs ys = refl
argv-cells (token ∷ tokens) xs ys = ap (λ t. token ∷ t) (argv-cells tokens xs ys)

-- The pointers behind "&": those that the loop moves, the one in the last of 64 places, and those behind.
spread :
    (tokens : List Bytes) (extra : ℕ)
    → length tokens ≤ 62
    → cells (65 + extra) (codes "&" ∷ tokens)
      ≡ some (codes "&")
        ∷ ((map some tokens ++ none ∷ replicate (62 - length tokens) none)
            ++ none ∷ replicate extra none)
spread tokens extra h =
    let count : 65 + extra - suc (length tokens) ≡ suc (62 - length tokens) + suc extra =
      omega arith in
    rw (count, spare (suc (62 - length tokens)) (suc extra), append_assoc)

dispatch-submit :
    (extra : ℕ) (c : Calls) (tokens : List Bytes) (s : State)
    → length tokens ≤ 62
    → dispatch (65 + extra) c (codes "&" ∷ tokens) s ≡ ok (submit c.forked tokens s)
unfolding dispatch background strcmp_eq
dispatch-submit extra c tokens s h =
    let mid : List (Option Bytes) = map some tokens ++ none ∷ replicate (62 - length tokens) none in
    let size : length mid ≡ 63 = omega (
      arith,
      length-append (map some tokens) (none ∷ replicate (62 - length tokens) none),
      length-map tokens (λ t. some t),
      length-replicate {A = Option Bytes} (62 - length tokens) none,
    ) in
    rw (
      spread tokens extra h,
      shift_left_lem mid (some (codes "&")) none (replicate extra none) size,
      argv-cells tokens (replicate (62 - length tokens) none)
          (last_of (some (codes "&")) mid ∷ none ∷ replicate extra none),
    )

-- What becomes of a command in the background: the child cannot be made, and nothing changes; or it runs
-- the command, and is recorded among the processes of the table, which keep their order; or the table has
-- no free place, and the child runs the command unrecorded.
pub data Submitted (forked : Option ℕ) (tokens : List Bytes) (s : State) : State → Type 0 where
  refused : forked ≡ none → Submitted forked tokens s s
  recorded :
      (pid : ℕ) (table front back : List ℕ)
      → forked ≡ some pid
      → length (killed s.table) < length s.table
      → killed s.table ≡ front ++ back
      → killed table ≡ front ++ pid ∷ back
      → length table ≡ length s.table
      → Submitted forked tokens s
          (record s { table = table; effects = s.effects ++ submits pid tokens ∷ [] })
  unrecorded :
      (pid : ℕ)
      → forked ≡ some pid
      → length (killed s.table) ≡ length s.table
      → Submitted forked tokens s (record s { effects = s.effects ++ submits pid tokens ∷ [] })

submit-Submitted :
    (forked : Option ℕ) (tokens : List Bytes) (s : State)
    → forked ≢ some 0
    → Submitted forked tokens s (submit forked tokens s)
unfolding submit
submit-Submitted none tokens s h = refused refl
submit-Submitted (some pid) tokens s h = elim (dec_lt (length (killed s.table)) (length s.table)) [
  | yes free ↦
      let (front, back, e, e') = record_free pid s.table (λ zero. h (ap some zero)) free in
      recorded pid (record_job pid s.table) front back refl free e e'
        (length-record_job pid s.table)
  | no full ↦
      let e : length (killed s.table) ≡ length s.table = omega (arith, killed-le s.table) in
      subst
        (λ table.
          Submitted (some pid) tokens s
            (record s { table = table; effects = s.effects ++ submits pid tokens ∷ [] }))
        (sym (record_full pid s.table e)) (unrecorded pid refl e)
]

-- In memory with room for more than 64 pointers, for at most 62 words behind the "&", where no child is
-- process 0: a command in the background leaves the shell unchanged, if the child cannot be made; otherwise
-- the child runs these words, and it is recorded among the processes of the table, which keep their order,
-- if the table has a free place, and not recorded if it has none.
pub dispatch-background :
    (extra : ℕ) (c : Calls) (tokens : List Bytes) (s : State)
    → length tokens ≤ 62
    → c.forked ≢ some 0
    → (s' : State) × (dispatch (65 + extra) c (codes "&" ∷ tokens) s ≡ ok s')
      × Submitted c.forked tokens s s'
dispatch-background extra c tokens s h child = (
  submit c.forked tokens s,
  dispatch-submit extra c tokens s h,
  submit-Submitted c.forked tokens s child,
)
