-- ===== src/Calculator/Server/Mutex/Turns.antt =====
-- Turns of the threads, one after the other, and a thread that they get in.
use sysalgos.Base.{
  ℕ, suc, ◌≤◌, ◌≡◌, refl, ap, ◌∙◌, ◌≢◌, true, none, some, List, [], ◌∷◌, arith, length, put,
  put_self, put_other, Exec, ok, ◌>>=◌,
}
use sysalgos.Calculator.Arithmetic.{Arithmetic}
use sysalgos.Calculator.Server.Mutex.{
  Pc, waiting, inside, Cell, Shared, System, acquire, act, act_of,
}

module _ (F : Arithmetic) where
  open F use {Double, print}

  -- Thread `i` acts, where nothing arrives and files can be opened.
  unfoldable pub turn : ℕ → System F → Exec (System F)
  turn i s =
      act_of F i none true s >>= λ (sh, c). ok (record { shared = sh; cells = put s.cells i c })

  -- The threads act in the order of a list.
  unfoldable pub run : List ℕ → System F → Exec (System F)
  run [] s = ok s
  run (i ∷ is) s = turn i s >>= run is

  -- Some order of at most `n` actions gets thread `i` in.
  pub record Served (i : ℕ) (s : System F) (n : ℕ) : Type 0 where
    pub order : List ℕ
    pub short : length order ≤ n
    pub last : System F
    pub runs : run order s ≡ ok last
    pub gets_in : (last.cells i).pc ≡ inside

  pub Served-cons :
      {i n : ℕ} (j : ℕ) (s t : System F) → turn j s ≡ ok t → Served i t n → Served i s (suc n)
  unfolding run
  Served-cons j s t e v = record {
    order = j ∷ v.order;
    short = omega (arith, v.short);
    last = v.last;
    runs = rw e v.runs;
    gets_in = v.gets_in;
  }

  unfoldable pub moved : System F → ℕ → Shared F → Cell F → System F
  moved s j sh c = record { shared = sh; cells = put s.cells j c }

  pub turn_at :
      (j : ℕ) (s : System F) (pc : Pc F)
      → (s.cells j).pc ≡ pc
      → turn j s
        ≡ (act F j none true s.shared (s.cells j).thread pc >>= λ (sh, c). ok (moved s j sh c))
  unfolding turn moved
  turn_at j s pc e = rw e

  pub still_waits :
      (s : System F) (i j : ℕ) (sh : Shared F) (c : Cell F)
      → (s.cells i).pc ≡ waiting
      → j ≢ i
      → ((moved s j sh c).cells i).pc ≡ waiting
  unfolding moved
  still_waits s i j sh c w ne = ap (λ d. d.pc) (put_other s.cells c ne) ∙ w

  pub moved-mutex :
      (s : System F) (j : ℕ) (sh : Shared F) (c : Cell F) → (moved s j sh c).shared.mutex ≡ sh.mutex
  unfolding moved
  moved-mutex s j sh c = refl

  pub moved-pc :
      (s : System F) (j : ℕ) (sh : Shared F) (c : Cell F) → ((moved s j sh c).cells j).pc ≡ c.pc
  unfolding moved
  moved-pc s j sh c = ap (λ d. d.pc) (put_self s.cells j c)

  pub Served-free :
      (i : ℕ) (s : System F) → (s.cells i).pc ≡ waiting → s.shared.mutex ≡ none → Served i s 1
  unfolding act acquire moved run
  Served-free i s w free =
      let thread = (s.cells i).thread in
      let c : Cell F = record { thread = thread; pc = inside } in
      let t = moved s i (record s.shared { mutex = some i }) c in
      Served-cons i s t
        (turn_at i s waiting w
          ∙ ap
              (λ m.
                ok (moved s i (acquire F m i s.shared thread).0 (acquire F m i s.shared thread).1))
              free)
        (record {
          order = [];
          short = omega arith;
          last = t;
          runs = refl;
          gets_in = ap (λ d. d.pc) (put_self s.cells i c);
        })
