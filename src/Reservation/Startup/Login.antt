-- ===== src/Reservation/Startup/Login.antt =====
-- Whom the login lets in, for any `strcmp` that the C standard allows.
use sysalgos.Base.{
  ◌<◌, length, lt→ltb, ◌≡◌, false, [], ◌∷◌, arith, ltb, ◌==◌, if◌then◌else◌, ok, ◌⊎◌, inl, inr,
}
use sysalgos.Base.Int.{ℤ, pos, negsuc, ◌≤ℤ◌, eqb_ℤ}
use sysalgos.Libc.Text.{Bytes, codes}
use sysalgos.Reservation.Request.{name_len}
use sysalgos.Reservation.Startup.{login}

-- The order of byte strings: the first difference decides, and a prefix comes first.
abbrev pub Before : Bytes → Bytes → Type 0
Before [] [] = ⊥
Before [] (y ∷ b) = Unit
Before (x ∷ a) [] = ⊥
Before (x ∷ a) (y ∷ b) = if ltb x y then Unit else if x == y then Before a b else ⊥

negative_not_one : (z : ℤ) → z ≤ℤ negsuc 0 → eqb_ℤ z (pos 1) ≡ false
negative_not_one z h = ground arith

-- The documented result of `strcmp`: zero for equal texts, and negative where the first comes before.
pub record IsStrcmp (strcmp : Bytes → Bytes → ℤ) : Type 0 where
  pub equal : (a : Bytes) → strcmp a a ≡ pos 0
  pub before : (a b : Bytes) → Before a b → strcmp a b ≤ℤ negsuc 0
  pub after : (a b : Bytes) → Before b a → pos 1 ≤ℤ strcmp a b

-- For any `strcmp` that the C standard allows: a name and a password of at most 19 bytes are let in if each
-- is "admin" or comes before it in the order of `strcmp`; a wrong one that comes before is not refused.
pub login_admits :
    (strcmp : Bytes → Bytes → ℤ) (username password : Bytes)
    → IsStrcmp strcmp
    → length username < name_len
    → length password < name_len
    → (username ≡ codes "admin") ⊎ Before username (codes "admin")
    → (password ≡ codes "admin") ⊎ Before password (codes "admin")
    → login strcmp username password ≡ ok tt
unfolding login
login_admits strcmp username password std short short' u p = rw (
  lt→ltb (length username) name_len short,
  lt→ltb (length password) name_len short',
  not_one username u,
  not_one password p,
)
  where
    not_one :
        (a : Bytes)
        → (a ≡ codes "admin") ⊎ Before a (codes "admin")
        → eqb_ℤ (strcmp a (codes "admin")) (pos 1) ≡ false
    not_one a (inl e) = rw (e, std.equal (codes "admin"))
    not_one a (inr b) = negative_not_one (strcmp a (codes "admin")) (std.before a (codes "admin") b)
