-- ===== src/Calculator/Server/Mutex/Steps.antt =====
-- Each move of an interleaved thread is followed by the serial threads: by a round, or by none.
use sysalgos.Base.{
  ℕ, ◌≡◌, refl, sym, ap, ◌∙◌, Bool, true, false, Option, none, some, List, [], ◌∷◌, ◌++◌,
  append-nil, ltb, length, ◌==◌, ==_iff, put, put_self, put_other, ok, require, Ensures, yields,
  faults, on_value, on_test,
}
use sysalgos.Libc.Text.{Bytes, codes}
use sysalgos.Calculator.Arithmetic.{Arithmetic}
use sysalgos.Calculator.Evaluate.{evaluate}
use sysalgos.Calculator.Server.{
  query_of, response, bye, Thread, answered, Entry, first_byte, filled, round,
}
use sysalgos.Calculator.Server.Mutex.{
  Pc, receiving, waiting, inside, recording, leaving, Cell, Shared, System, receive, acquire,
  send_answer,
}
use sysalgos.Calculator.Server.Mutex.Serial.{
  Office, Serial, asked, other, Loaded, Sent, holds, pending, Sim, Sim-put, pending-put_self,
}
use sysalgos.Calculator.Server.Mutex.Commit.{
  require-true, round_invalid, round-Sent, round-bye, round_wrong,
}
use sysalgos.Calculator.Server.Mutex.Moves.{quiet, busy, matched, stands, held, drained}

module _ (F : Arithmetic) where
  open F use {Double, print}

  -- The serial threads have followed the move of thread `i`.
  abbrev pub Followed : System F → ℕ → Shared F × Cell F → Type 0
  Followed s i (sh, c) =
      (o : Office F) × Serial F o × Sim F (record { shared = sh; cells = put s.cells i c }) o

  module _ (s : System F) (o : Office F) (ser : Serial F o) (sim : Sim F s o) (i : ℕ) where
    -- A thread that takes nothing to the lock: its round is over.
    rest-Followed :
        (received : Option Bytes) (opens : Bool) (tag : ℕ) (t : Thread)
        → holds F (s.cells i).pc ≡ false
        → (o.threads i).serving ≡ true
        → first_byte (filled received (o.threads i).buffer) ≡ ok tag
        → (tag == b'0') ≡ false
        → round F i received opens o.log (o.threads i) ≡ ok (o.log, t)
        → Followed s i (s.shared, record { thread = t; pc = receiving })
    rest-Followed received opens tag t out on f n r =
        let o' : Office F = record {
          log = o.log;
          answers = o.answers;
          threads = put o.threads i t;
        } in
        (
          o',
          other ser i received opens tag on f n r,
          quiet F s o sim i o' (record { thread = t; pc = receiving }) out refl
              (λ j ne. put_other o.threads t ne) (sym (put_self o.threads i t)) refl refl,
        )

    pub receive-Followed :
        (received : Option Bytes) (opens : Bool)
        → holds F (s.cells i).pc ≡ false
        → (o.threads i).serving ≡ true
        → Ensures (λ c. Followed s i (s.shared, c)) (receive F received (o.threads i))
    unfolding receive
    receive-Followed received opens out on =
        let a = o.threads i in
        on_value (first_byte (filled received a.buffer)) λ tag f.
          on_test (tag == b'0')
            (λ zero.
              let t : Thread = record a { buffer = filled received a.buffer } in
              yields (
                o,
                ser,
                quiet F s o sim i o (record { thread = t; pc = waiting }) out refl (λ _ _. refl)
                    (record {
                      received = received;
                      serving = on;
                      buffered = refl;
                      tag = f ∙ ap ok ((==_iff tag b'0').0 zero);
                    })
                    refl refl,
              ))
            λ n.
              on_test (tag == b'1')
                (λ one. on_value bye λ w e. yields (
                  rest-Followed received opens tag _ out on f n
                    (round-bye F i o.log a received opens tag w f n one e)))
                λ n'. yields (
                  rest-Followed received opens tag _ out on f n
                    (round_wrong F i o.log a received opens tag f n n'))

    pub acquire-Followed :
        (t : Thread) (m : Option ℕ)
        → s.cells i ≡ record { thread = t; pc = waiting }
        → s.shared.mutex ≡ m
        → Followed s i (acquire F m i s.shared t)
    unfolding acquire
    acquire-Followed t none at e = (
      o,
      ser,
      Sim-put F s o o i (record { thread = t; pc = inside }) (record s.shared { mutex = some i })
          sim (λ _ _. refl) (matched F s o sim i t waiting at) sim.log
          (sim.answers
            ∙ ap (λ m. o.answers ++ pending F m s.cells) e
            ∙ ap (λ p. o.answers ++ p)
                (sym (pending-put_self F s.cells i (record { thread = t; pc = inside }))))
          (λ _. refl) (λ _. refl) (λ j ne e'. cc) (λ j ne e'. absurd (ne (cc))),
    )
    acquire-Followed t (some owner) at e = (
      o,
      ser,
      quiet F s o sim i o (record { thread = t; pc = waiting }) (stands F s o sim i t waiting at)
          refl (λ _ _. refl) (matched F s o sim i t waiting at) refl refl,
    )

    pub send-Followed :
        (t : Thread) (opens : Bool) (query : Bytes) (stack : List Double)
        → s.cells i ≡ record { thread = t; pc = inside }
        → query_of t.buffer ≡ ok query
        → evaluate F query ≡ ok stack
        → Ensures (Followed s i) (send_answer F i query stack s.shared t)
    unfolding send_answer
    send-Followed t opens query [] at q e = faults
    send-Followed t opens query (res ∷ []) at q e =
        on_value (require (ltb (length (print res)) 50)) λ _ h.
          on_value (response (print res)) λ w p. yields (
            o,
            ser,
            busy F s o sim i o (record { thread = answered w t; pc = recording query res })
                (record s.shared { answers = s.shared.answers ++ (i, w) ∷ [] })
                (held F s o sim i t inside at refl) (held F s o sim i t inside at refl) refl
                (λ _ _. refl)
                (record {
                  before = t;
                  reply = w;
                  loaded = matched F s o sim i t inside at;
                  text = q;
                  single = e;
                  short = require-true (ltb (length (print res)) 50) h;
                  replied = p;
                  after = refl;
                })
                sim.log
                (ap (λ l. l ++ (i, w) ∷ [])
                  (drained F s o sim i t inside at refl ∙ append-nil o.answers)),
          )
    send-Followed t opens query (x ∷ y ∷ stack) at q e =
        on_value (require (ltb (length (print x)) 50)) λ _ h.
          on_value (response (codes "Invalid postfix expression!!")) λ w p.
            let l : Loaded F (o.threads i) t = matched F s o sim i t inside at in
            let o' : Office F = record {
              log = o.log;
              answers = o.answers ++ (i, w) ∷ [];
              threads = put o.threads i (answered w t);
            } in
            yields (
              o',
              asked ser i l.received opens w l.serving
                  (ap (λ u. first_byte u.buffer) (sym l.buffered) ∙ l.tag)
                  (round_invalid F i o.log l opens query w x y stack q e
                    (require-true (ltb (length (print x)) 50) h) p)
                  (ap (λ u. u.replies ++ w ∷ []) l.buffered),
              busy F s o sim i o' (record { thread = answered w t; pc = leaving })
                  (record s.shared { answers = s.shared.answers ++ (i, w) ∷ [] })
                  (held F s o sim i t inside at refl) (held F s o sim i t inside at refl) refl
                  (λ j ne. put_other o.threads (answered w t) ne)
                  (sym (put_self o.threads i (answered w t))) sim.log
                  (ap (λ l. l ++ (i, w) ∷ [])
                      (drained F s o sim i t inside at refl ∙ append-nil o.answers)
                    ∙ sym (append-nil (o.answers ++ (i, w) ∷ []))),
            )

    pub record-Followed :
        (t : Thread) (query : Bytes) (res : Double)
        → s.cells i ≡ record { thread = t; pc = recording query res }
        → Followed s i (
          record s.shared {
            log = s.shared.log ++ record { client_id = i; query = query; answer = res } ∷ [];
          },
          record { thread = t; pc = leaving },
        )
    record-Followed t query res at =
        let pc : Pc F = recording query res in
        let u : Sent F (o.threads i) t query res = matched F s o sim i t pc at in
        let log : List (Entry F) =
          o.log ++ record { client_id = i; query = query; answer = res } ∷ [] in
        let o' : Office F = record {
          log = log;
          answers = o.answers ++ (i, u.reply) ∷ [];
          threads = put o.threads i t;
        } in
        (
          o',
          asked ser i u.loaded.received true u.reply u.loaded.serving
              (ap (λ v. first_byte v.buffer) (sym u.loaded.buffered) ∙ u.loaded.tag)
              (round-Sent F i o.log query res u)
              (ap (λ v. v.replies) u.after ∙ ap (λ v. v.replies ++ u.reply ∷ []) u.loaded.buffered),
          busy F s o sim i o' (record { thread = t; pc = leaving })
              (record s.shared {
                log = s.shared.log ++ record { client_id = i; query = query; answer = res } ∷ [];
              })
              (held F s o sim i t pc at refl) (held F s o sim i t pc at refl) refl
              (λ j ne. put_other o.threads t ne) (sym (put_self o.threads i t))
              (ap (λ l. l ++ record { client_id = i; query = query; answer = res } ∷ []) sim.log)
              (drained F s o sim i t pc at refl
                ∙ ap (λ v. o.answers ++ (i, v.buffer) ∷ []) u.after
                ∙ sym (append-nil (o.answers ++ (i, u.reply) ∷ []))),
        )

    pub release-Followed :
        (t : Thread)
        → s.cells i ≡ record { thread = t; pc = leaving }
        → Followed s i (record s.shared { mutex = none }, record { thread = t; pc = receiving })
    release-Followed t at =
        let owned = held F s o sim i t leaving at refl in
        (
          o,
          ser,
          Sim-put F s o o i (record { thread = t; pc = receiving })
              (record s.shared { mutex = none }) sim (λ _ _. refl)
              (matched F s o sim i t leaving at) sim.log (drained F s o sim i t leaving at refl)
              (λ h. cc) (λ e. cc) (λ j ne e. absurd (ne (cc))) (λ j ne e. cc),
        )
