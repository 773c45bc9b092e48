-- ===== src/Reservation/Fleet/Conservation.antt =====
-- Tickets are neither lost nor made, whatever the clients do and in whichever order.
use sysalgos.Base.{
  put, ℕ, ◌<◌, ◌≡◌, refl, ◌∙◌, ap, false, Ensures, Ensures_at, yields, on_value, on_test,
}
use sysalgos.Base.Int.{ℤ, pos, pos_part, neg_part, ◌+ℤ◌, ◌-ℤ◌, int_laws}
use sysalgos.Libc.Text.{Bytes, codes, strncmp_eq, zeros, recv_into}
use sysalgos.Reservation.Request.{ac_num, sl_num, window_size}
use sysalgos.Reservation.Server.{Shared, Thread, bytes, Calls, greet, farewell, dispatch, round}
use sysalgos.Reservation.Client.{Client, fresh}
use sysalgos.Reservation.Exchange.Agreement.{Exchanged, bought, turned_down, exchange-Exchanged}
use sysalgos.Reservation.Fleet.{Fleet, Step, trade, other, Reach, start, later}
use sysalgos.Reservation.Fleet.Sum.{total, total-put, total-eq-zero}

-- All tickets of each class: those left and those that the clients count as theirs.
abbrev pub ac_total : ℕ → Fleet → ℤ
ac_total n f = f.shared.ac +ℤ total (λ k. k.num_ac) n f.clients

abbrev pub sl_total : ℕ → Fleet → ℤ
sl_total n f = f.shared.sl +ℤ total (λ k. k.num_sl) n f.clients

-- A message that is no request leaves the tickets and the log alone.
pub round_frame :
    (msg : Bytes) (c : Calls) (s : Shared) (t : Thread)
    → strncmp_eq 4 (recv_into msg (zeros window_size)) (codes "REQ ") ≡ false
    → Ensures (λ st. st.0 ≡ s) (round (bytes msg) c s t)
unfolding round dispatch
round_frame msg c s t h =
    let buffer = recv_into msg (zeros window_size) in
    on_test (strncmp_eq 4 buffer (codes "HI  "))
      (λ _. on_value (greet c buffer t) λ _ _. yields refl)
      λ _. rw h (
        on_test (strncmp_eq 4 buffer (codes "BYE "))
          (λ _. on_value (farewell c t) λ _ _. yields refl) λ _. yields refl)

-- What leaves one summand and enters another leaves the sum alone.
moved : (x n t t' k : ℤ) → t' +ℤ k ≡ t +ℤ (k +ℤ n) → x -ℤ n +ℤ t' ≡ x +ℤ t
moved x n t t' k h = omega (int_laws, ap pos_part h, ap neg_part h)

same_total : (t t' k : ℤ) → t' +ℤ k ≡ t +ℤ k → t' ≡ t
same_total t t' k h = omega (int_laws, ap pos_part h, ap neg_part h)

module _ (w : Client → ℤ) (n : ℕ) (f : ℕ → Client) (i : ℕ) (lt : i < n) (k : Client)
    (x x' : ℤ) where
  trade_moves :
      (m : ℤ) → x' ≡ x -ℤ m → w k ≡ w (f i) +ℤ m → x' +ℤ total w n (put f i k) ≡ x +ℤ total w n f
  trade_moves m e p =
      ap (λ y. y +ℤ total w n (put f i k)) e
      ∙ moved x m (total w n f) (total w n (put f i k)) (w (f i))
          (total-put w n f i k lt ∙ ap (λ y. total w n f +ℤ y) p)

  refusal_keeps : x' ≡ x → w k ≡ w (f i) → x' +ℤ total w n (put f i k) ≡ x +ℤ total w n f
  refusal_keeps e p = cc (
    e,
    same_total (total w n f) (total w n (put f i k)) (w (f i))
        (total-put w n f i k lt ∙ ap (λ y. total w n f +ℤ y) p),
  )

Step-totals :
    {n : ℕ} {f g : Fleet}
    → Step n f g
    → (ac_total n g ≡ ac_total n f) × (sl_total n g ≡ sl_total n f)
Step-totals {n} {f} (trade i ac sl c {s} {t} {k} lt ia is e) =
    after_trade
      (Ensures_at (exchange-Exchanged ac sl c f.shared (f.threads i) (f.clients i) ia is) e)
  where
    after_trade :
        Exchanged c ac sl f.shared (f.clients i) (s, t, k)
        → (s.ac +ℤ total (λ k. k.num_ac) n (put f.clients i k) ≡ ac_total n f)
          × (s.sl +ℤ total (λ k. k.num_sl) n (put f.clients i k) ≡ sl_total n f)
    after_trade (bought name _ es p q) = (
      trade_moves (λ u. u.num_ac) n f.clients i lt k f.shared.ac s.ac ac (ap (λ u. u.ac) es) p,
      trade_moves (λ u. u.num_sl) n f.clients i lt k f.shared.sl s.sl sl (ap (λ u. u.sl) es) q,
    )
    after_trade (turned_down _ es p q) = (
      refusal_keeps (λ u. u.num_ac) n f.clients i lt k f.shared.ac s.ac (ap (λ u. u.ac) es) p,
      refusal_keeps (λ u. u.num_sl) n f.clients i lt k f.shared.sl s.sl (ap (λ u. u.sl) es) q,
    )
Step-totals {n} {f} (other i msg c lt h e) =
    let same = Ensures_at (round_frame msg c f.shared (f.threads i) h) e in rw same (refl, refl)

-- In every reachable state the tickets left and the tickets that the clients count as theirs add up
-- to the tickets that there were, in each class.
pub tickets_conserved :
    {n : ℕ} {f : Fleet} → Reach n f → (ac_total n f ≡ pos ac_num) × (sl_total n f ≡ pos sl_num)
tickets_conserved {n} start = (
  rw (total-eq-zero (λ k. k.num_ac) n fresh refl) (omega int_laws),
  rw (total-eq-zero (λ k. k.num_sl) n fresh refl) (omega int_laws),
)
tickets_conserved (later r st) =
    let (ac, sl) = Step-totals st in let (ac', sl') = tickets_conserved r in (ac ∙ ac', sl ∙ sl')
