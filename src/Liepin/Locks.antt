-- ===== src/Liepin/Locks.antt =====
-- The lock of providers/pi_agent/locks.py: who holds a connection and an account. Each method runs
-- under one mutex, so a history is a sequence of whole calls. The two kinds of keys, which the
-- source tells apart by their prefixes, are constructors.
mod Exclusion
mod Tests
use cv_match.Common.{
  String, str_eq, if◌then◌else◌, Bool, List, Option, Result, false, none, ◌||◌, is_some, err, ok,
  true, some, ◌∷◌, [],
}

pub data LockKey : Type 0 where
  connection : String → LockKey
  provider_account : String → LockKey

abbrev pub key_eq : LockKey → LockKey → Bool
key_eq (connection a) (connection b) = str_eq a b
key_eq (provider_account a) (provider_account b) = str_eq a b
key_eq _ _ = false

pub data LockError : Type 0 where
  lock_keys_missing : LockError

-- `_owners`: the keys with their runs
abbrev pub Owners : Type 0
Owners = List (LockKey × String)

unfoldable pub owner_of : LockKey → Owners → Option String
owner_of key [] = none
owner_of key ((k, run) ∷ owners) = if key_eq key k then some run else owner_of key owners

unfoldable pub remove_key : LockKey → Owners → Owners
remove_key key [] = []
remove_key key ((k, run) ∷ owners) =
    let rest = remove_key key owners in if key_eq key k then rest else (k, run) ∷ rest

abbrev pub lock_keys : String → String → Result LockError (LockKey × LockKey)
lock_keys connection_id account =
    if str_eq connection_id "" || str_eq account ""
    then err lock_keys_missing
    else ok (connection connection_id, provider_account account)

abbrev pub acquire_keys : Owners → LockKey → LockKey → String → Bool × Owners
acquire_keys owners first second run =
    if is_some (owner_of first owners) || is_some (owner_of second owners)
    then (false, owners)
    else (true, (second, run) ∷ (first, run) ∷ owners)

-- with the keys, or the error in their place
abbrev pub acquire_with :
    Owners → String → Result LockError (LockKey × LockKey) → Result LockError (Bool × Owners)
acquire_with owners run (err e) = err e
acquire_with owners run (ok (first, second)) = ok (acquire_keys owners first second run)

unfoldable pub acquire : Owners → String → String → String → Result LockError (Bool × Owners)
acquire owners connection_id account run = acquire_with owners run (lock_keys connection_id account)

abbrev pub owned_by : Option String → String → Bool
owned_by none run = false
owned_by (some owner) run = str_eq owner run

abbrev pub release_key : LockKey → String → Owners → Owners
release_key key run owners =
    if owned_by (owner_of key owners) run then remove_key key owners else owners

abbrev pub release_with :
    Owners → String → Result LockError (LockKey × LockKey) → Result LockError Owners
release_with owners run (err e) = err e
release_with owners run (ok (first, second)) =
    ok (release_key second run (release_key first run owners))

unfoldable pub release : Owners → String → String → String → Result LockError Owners
release owners connection_id account run = release_with owners run (lock_keys connection_id account)
