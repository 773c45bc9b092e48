-- ===== src/Calculator/Server/Mutex/Serial.antt =====
-- The same threads with their rounds one after the other, and how a state of the interleaved ones stands
-- to a state of these.
use sysalgos.Base.{
  ℕ, ◌≡◌, refl, sym, ap, subst, ◌≢◌, Bool, true, false, Option, none, some, List, [], ◌∷◌, ◌++◌,
  ltb, length, ◌==◌, put, put_self, put_other, put_all, ok,
}
use sysalgos.Libc.Text.{Bytes}
use sysalgos.Calculator.Arithmetic.{Arithmetic}
use sysalgos.Calculator.Evaluate.{evaluate}
use sysalgos.Calculator.Server.{
  query_of, response, Thread, connected, answered, Entry, first_byte, filled, round,
}
use sysalgos.Calculator.Server.Mutex.{
  Pc, receiving, waiting, inside, recording, leaving, Cell, Shared, System,
}

module _ (F : Arithmetic) where
  open F use {Double, print}

  -- The log, the answers to queries, and the threads, with nothing in between.
  pub record Office : Type 0 where
    pub log : List (Entry F)
    pub answers : List (ℕ × Bytes)
    pub threads : ℕ → Thread

  abbrev pub opened : Office
  opened = record { log = []; answers = []; threads = λ _. connected }

  -- Whole rounds of the threads, one after the other: on a query, and on any other message.
  pub data Serial : Office → Type 0 where
    nothing : Serial opened
    asked :
        {o : Office} {log : List (Entry F)} {t : Thread}
        → Serial o
        → (i : ℕ) (received : Option Bytes) (opens : Bool) (w : Bytes)
        → (o.threads i).serving ≡ true
        → first_byte (filled received (o.threads i).buffer) ≡ ok b'0'
        → round F i received opens o.log (o.threads i) ≡ ok (log, t)
        → t.replies ≡ (o.threads i).replies ++ w ∷ []
        → Serial
            (record { log = log; answers = o.answers ++ (i, w) ∷ []; threads = put o.threads i t })
    other :
        {o : Office} {log : List (Entry F)} {t : Thread}
        → Serial o
        → (i : ℕ) (received : Option Bytes) (opens : Bool) (tag : ℕ) → (o.threads i).serving ≡ true
        → first_byte (filled received (o.threads i).buffer) ≡ ok tag
        → (tag == b'0') ≡ false
        → round F i received opens o.log (o.threads i) ≡ ok (log, t)
        → Serial (record { log = log; answers = o.answers; threads = put o.threads i t })

  -- A query has arrived: `a` was the thread before it.
  pub record Loaded (a t : Thread) : Type 0 where
    pub received : Option Bytes
    pub serving : a.serving ≡ true
    pub buffered : t ≡ record a { buffer = filled received a.buffer }
    pub tag : first_byte t.buffer ≡ ok b'0'

  -- A result has been sent that is not in the log.
  pub record Sent (a t : Thread) (query : Bytes) (res : Double) : Type 0 where
    pub before : Thread
    pub reply : Bytes
    pub loaded : Loaded a before
    pub text : query_of before.buffer ≡ ok query
    pub single : evaluate F query ≡ ok (res ∷ [])
    pub short : ltb (length (print res)) 50 ≡ true
    pub replied : response (print res) ≡ ok reply
    pub after : t ≡ answered reply before

  -- The thread `a` of the serial threads, and the same thread interleaved. A round counts as done when
  -- its record is written, or its answer sent where there is no record.
  abbrev pub Matches : Thread → Thread → Pc F → Type 0
  Matches a t receiving = t ≡ a
  Matches a t waiting = Loaded a t
  Matches a t inside = Loaded a t
  Matches a t (recording query res) = Sent a t query res
  Matches a t leaving = t ≡ a

  abbrev pub holds : Pc F → Bool
  holds receiving = false
  holds waiting = false
  holds inside = true
  holds (recording query res) = true
  holds leaving = true

  -- The answer that has been sent and has no record.
  abbrev pub unrecorded : ℕ → Thread → Pc F → List (ℕ × Bytes)
  unrecorded i t receiving = []
  unrecorded i t waiting = []
  unrecorded i t inside = []
  unrecorded i t (recording query res) = (i, t.buffer) ∷ []
  unrecorded i t leaving = []

  abbrev pub pending : Option ℕ → (ℕ → Cell F) → List (ℕ × Bytes)
  pending none cells = []
  pending (some i) cells = unrecorded i (cells i).thread (cells i).pc

  pub record Sim (s : System F) (o : Office) : Type 0 where
    pub threads : (i : ℕ) → Matches (o.threads i) (s.cells i).thread (s.cells i).pc
    pub log : s.shared.log ≡ o.log
    pub answers : s.shared.answers ≡ o.answers ++ pending s.shared.mutex s.cells
    pub owns : (i : ℕ) → holds (s.cells i).pc ≡ true → s.shared.mutex ≡ some i
    pub owner : (i : ℕ) → s.shared.mutex ≡ some i → holds (s.cells i).pc ≡ true

  abbrev pub MatchesCell : Thread → Cell F → Type 0
  MatchesCell a c = Matches a c.thread c.pc

  -- One thread has moved, and the serial threads have followed or stayed.
  pub Sim-put :
      (s : System F) (o o' : Office) (i : ℕ) (c : Cell F) (sh : Shared F)
      → Sim s o
      → ((j : ℕ) → i ≢ j → o'.threads j ≡ o.threads j)
      → MatchesCell (o'.threads i) c
      → sh.log ≡ o'.log
      → sh.answers ≡ o'.answers ++ pending sh.mutex (put s.cells i c)
      → (holds c.pc ≡ true → sh.mutex ≡ some i)
      → (sh.mutex ≡ some i → holds c.pc ≡ true)
      → ((j : ℕ) → i ≢ j → s.shared.mutex ≡ some j → sh.mutex ≡ some j)
      → ((j : ℕ) → i ≢ j → sh.mutex ≡ some j → s.shared.mutex ≡ some j)
      → Sim (record { shared = sh; cells = put s.cells i c }) o'
  Sim-put s o o' i c sh sim rest here log answers owns owner keeps back = record {
    threads =
        put_all (λ j. MatchesCell (o'.threads j)) s.cells i c here
          λ j ne. subst (λ a. MatchesCell a (s.cells j)) (sym (rest j ne)) (sim.threads j);
    log = log;
    answers = answers;
    owns =
        put_all (λ j d. holds d.pc ≡ true → sh.mutex ≡ some j) s.cells i c owns
          λ j ne h. keeps j ne (sim.owns j h);
    owner =
        put_all (λ j d. sh.mutex ≡ some j → holds d.pc ≡ true) s.cells i c owner
          λ j ne e. sim.owner j (back j ne e);
  }

  -- Where another thread holds the mutex or none does, what is pending stays.
  pub pending-put :
      (m : Option ℕ) (cells : ℕ → Cell F) (i : ℕ) (c : Cell F)
      → m ≢ some i
      → pending m (put cells i c) ≡ pending m cells
  pending-put none cells i c ne = refl
  pending-put (some j) cells i c ne =
      ap (λ d. unrecorded j d.thread d.pc) (put_other cells c (λ e. ne (ap some (sym e))))

  pub pending-put_self :
      (cells : ℕ → Cell F) (i : ℕ) (c : Cell F)
      → pending (some i) (put cells i c) ≡ unrecorded i c.thread c.pc
  pending-put_self cells i c = ap (λ d. unrecorded i d.thread d.pc) (put_self cells i c)
