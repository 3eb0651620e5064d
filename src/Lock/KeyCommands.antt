-- ===== src/Lock/KeyCommands.antt =====
-- The commands of the server on the key of a lock, with the documented behaviour that the lock relies
-- on, and an implementation of them.
use redis_py.Common.{ℕ, zero, suc, ◌<◌, ◌≡◌, refl, Bool, true, false, Option, none, some}

-- the reply of PTTL: -2, -1, or the milliseconds that are left
pub data Ttl : Type 0 where
  missing persistent : Ttl
  left : ℕ → Ttl

pub record Commands (Token : Type 0) : Type 1 where
  pub Db : Type 0
  pub get : Db → Option Token
  pub set_nx : Token → Option ℕ → Db → Bool × Db
  pub del : Db → Db
  pub pttl : Db → Ttl
  pub pexpire : ℕ → Db → Db
  pub get-del : (d : Db) → get (del d) ≡ none
  pub set_nx-free :
      (t : Token) (px : Option ℕ) (d : Db)
      → get d ≡ none
      → ((set_nx t px d).0 ≡ true) × (get (set_nx t px d).1 ≡ some t)
  pub set_nx-taken :
      (t u : Token) (px : Option ℕ) (d : Db) → get d ≡ some u → set_nx t px d ≡ (false, d)
  pub get-pexpire : (n : ℕ) (d : Db) → 0 < n → get (pexpire n d) ≡ get d
  pub pttl-pexpire :
      (n : ℕ) (d : Db) (t : Token) → 0 < n → get d ≡ some t → pttl (pexpire n d) ≡ left n

-- One key with its token and the milliseconds that are left to it.
pub record Slot (Token : Type 0) : Type 0 where
  pub token : Token
  pub expires : Option ℕ

module _ {Token : Type 0} where
  abbrev pub slot_get : Option (Slot Token) → Option Token
  slot_get none = none
  slot_get (some s) = some s.token

  abbrev pub slot_set_nx : Token → Option ℕ → Option (Slot Token) → Bool × Option (Slot Token)
  slot_set_nx t px none = (true, some (record { token = t; expires = px }))
  slot_set_nx t px (some s) = (false, some s)

  abbrev pub slot_pttl : Option (Slot Token) → Ttl
  slot_pttl none = missing
  slot_pttl (some s) = elim s.expires [ none ↦ persistent | some n ↦ left n ]

  abbrev pub slot_pexpire : ℕ → Option (Slot Token) → Option (Slot Token)
  slot_pexpire n none = none
  slot_pexpire zero (some s) = none
  slot_pexpire (suc n) (some s) = some (record s { expires = some (suc n) })

  pub slot_set_nx-free :
      (t : Token) (px : Option ℕ) (d : Option (Slot Token))
      → slot_get d ≡ none
      → ((slot_set_nx t px d).0 ≡ true) × (slot_get (slot_set_nx t px d).1 ≡ some t)
  slot_set_nx-free t px none h = (refl, refl)
  slot_set_nx-free t px (some s) h = cc

  pub slot_set_nx-taken :
      (t u : Token) (px : Option ℕ) (d : Option (Slot Token))
      → slot_get d ≡ some u
      → slot_set_nx t px d ≡ (false, d)
  slot_set_nx-taken t u px none h = cc
  slot_set_nx-taken t u px (some s) h = refl

  pub slot_get-pexpire :
      (n : ℕ) (d : Option (Slot Token)) → 0 < n → slot_get (slot_pexpire n d) ≡ slot_get d
  slot_get-pexpire n none h = refl
  slot_get-pexpire zero (some s) h = elim h [ ]
  slot_get-pexpire (suc n) (some s) h = refl

  pub slot_pttl-pexpire :
      (n : ℕ) (d : Option (Slot Token)) (t : Token)
      → 0 < n
      → slot_get d ≡ some t
      → slot_pttl (slot_pexpire n d) ≡ left n
  slot_pttl-pexpire n none t h e = cc
  slot_pttl-pexpire zero (some s) t h e = elim h [ ]
  slot_pttl-pexpire (suc n) (some s) t h e = refl

  abbrev pub slot_server : Commands Token
  slot_server = record {
    Db = Option (Slot Token);
    get = slot_get;
    set_nx = slot_set_nx;
    del = λ d. none;
    pttl = slot_pttl;
    pexpire = slot_pexpire;
    get-del = λ d. refl;
    set_nx-free = slot_set_nx-free;
    set_nx-taken = slot_set_nx-taken;
    get-pexpire = slot_get-pexpire;
    pttl-pexpire = slot_pttl-pexpire;
  }
