-- ===== src/Liepin/Locks/Exclusion.antt =====
-- Mutual exclusion: what a run holds stays its own until this run releases it.
use cv_match.Liepin.Locks.{
  acquire, Owners, LockKey, owner_of, key_eq, remove_key, release, connection, acquire_keys,
  release_key, provider_account, owned_by, LockError, lock_keys, lock_keys_missing, acquire_with,
  release_with,
}
use cv_match.Common.{
  String, str_eq, str_eq_iff, if◌then◌else◌, Bool, ◌≡◌, ok, true, some, false, none, ap, Bool-cases,
  Option, inl, is_some, inr, refl, sym, ◌||◌, ◌∙◌, ◌∷◌, subst, [], Result, err, ok-injective, ◌⊎◌,
  arith,
}

-- The calls that are no release by the run `holder`, one after the other
pub data Calls (holder : String) : Owners → Owners → Type 0 where
  no_call : {owners : Owners} → Calls holder owners owners
  then_acquire :
      {before owners owners' : Owners} (connection_id account run : String) (taken : Bool)
      → Calls holder before owners
      → acquire owners connection_id account run ≡ ok (taken, owners')
      → Calls holder before owners'
  then_release :
      {before owners owners' : Owners} (connection_id account run : String)
      → Calls holder before owners
      → str_eq holder run ≡ false
      → release owners connection_id account run ≡ ok owners'
      → Calls holder before owners'

key_eq-eq : (j k : LockKey) → key_eq j k ≡ true → j ≡ k
key_eq-eq (connection a) (connection b) h = ap connection ((str_eq_iff a b).0 h)
key_eq-eq (provider_account a) (provider_account b) h = ap provider_account ((str_eq_iff a b).0 h)
key_eq-eq (connection a) (provider_account b) h = cc
key_eq-eq (provider_account a) (connection b) h = cc

key_eq_refl : (k : LockKey) → key_eq k k ≡ true
key_eq_refl (connection a) = (str_eq_iff a a).1 refl
key_eq_refl (provider_account a) = (str_eq_iff a a).1 refl

apart :
    {a : String} (k j : LockKey) (owners : Owners)
    → owner_of k owners ≡ some a
    → owner_of j owners ≡ none
    → key_eq k j ≡ false
apart k j owners h n = elim (Bool-cases (key_eq k j)) [
  | inl e ↦ absurd (distinct (sym h ∙ ap (λ x. owner_of x owners) (key_eq-eq k j e) ∙ n))
  | inr e ↦ e
]
  where
    distinct : {b : String} → some b ≡ none → ⊥
    distinct h = cc

abbrev owners_after : Bool × Owners → Owners
owners_after (taken, owners) = owners

acquire_keys-holds :
    (k first second : LockKey) (holder run : String) (owners : Owners)
    → owner_of k owners ≡ some holder
    → owner_of k (owners_after (acquire_keys owners first second run)) ≡ some holder
unfolding owner_of
acquire_keys-holds k first second holder run owners h =
    cases (owner_of first owners) (owner_of second owners) refl refl
  where
    cases :
        (f s : Option String)
        → owner_of first owners ≡ f
        → owner_of second owners ≡ s
        → owner_of k (
            owners_after (
              if is_some f || is_some s
              then (false, owners)
              else (true, (second, run) ∷ (first, run) ∷ owners)))
          ≡ some holder
    cases (some a) s ef es = h
    cases none (some b) ef es = h
    cases none none ef es = rw (apart k second owners h es, apart k first owners h ef) h

remove_key-keeps :
    (k j : LockKey) (owners : Owners)
    → key_eq k j ≡ false
    → owner_of k (remove_key j owners) ≡ owner_of k owners
unfolding owner_of remove_key
remove_key-keeps k j [] h = refl
remove_key-keeps k j ((x, run) ∷ owners) h = elim (Bool-cases (key_eq j x)) [
  | inl e ↦
      let skip : key_eq k x ≡ false = subst (λ y. key_eq k y ≡ false) (key_eq-eq j x e) h in
      rw (e, skip) (remove_key-keeps k j owners h)
  | inr e ↦ rw e (ap (λ o. if key_eq k x then some run else o) (remove_key-keeps k j owners h))
]

release_key-holds :
    (k j : LockKey) (holder run : String) (owners : Owners)
    → str_eq holder run ≡ false
    → owner_of k owners ≡ some holder
    → owner_of k (release_key j run owners) ≡ some holder
release_key-holds k j holder run owners other h =
    elim (Bool-cases (owned_by (owner_of j owners) run)) [
      | inr e ↦ rw e h
      | inl e ↦ rw e (remove_key-keeps k j owners (differ e) ∙ h)
    ]
  where
    differ : owned_by (owner_of j owners) run ≡ true → key_eq k j ≡ false
    differ e = elim (Bool-cases (key_eq k j)) [
      | inr n ↦ n
      | inl s ↦ absurd (
          clash
            (sym
                (ap (λ o. owned_by o run) (sym (ap (λ x. owner_of x owners) (key_eq-eq k j s)) ∙ h))
              ∙ e)
            other)
    ]
      where
        clash : {b : Bool} → b ≡ true → b ≡ false → ⊥
        clash p q = cc

acquire-holds :
    (k : LockKey) (holder connection_id account run : String) (owners owners' : Owners)
    (taken : Bool)
    → owner_of k owners ≡ some holder
    → acquire owners connection_id account run ≡ ok (taken, owners')
    → owner_of k owners' ≡ some holder
unfolding acquire
acquire-holds k holder connection_id account run owners owners' taken h e =
    cases (lock_keys connection_id account) e
  where
    cases :
        (keys : Result LockError (LockKey × LockKey))
        → (acquire_with owners run keys) ≡ ok (taken, owners')
        → owner_of k owners' ≡ some holder
    cases (err x) e = cc
    cases (ok (first, second)) e =
        subst (λ o. owner_of k o ≡ some holder) (ap owners_after (ok-injective e))
          (acquire_keys-holds k first second holder run owners h)

release-holds :
    (k : LockKey) (holder connection_id account run : String) (owners owners' : Owners)
    → str_eq holder run ≡ false
    → owner_of k owners ≡ some holder
    → release owners connection_id account run ≡ ok owners'
    → owner_of k owners' ≡ some holder
unfolding release
release-holds k holder connection_id account run owners owners' other h e =
    cases (lock_keys connection_id account) e
  where
    cases :
        (keys : Result LockError (LockKey × LockKey))
        → (release_with owners run keys) ≡ ok owners'
        → owner_of k owners' ≡ some holder
    cases (err x) e = cc
    cases (ok (first, second)) e =
        subst (λ o. owner_of k o ≡ some holder) (ok-injective e)
          (release_key-holds k second holder run _ other
            (release_key-holds k first holder run owners other h))

Calls-holds :
    (k : LockKey) (holder : String) {before owners : Owners}
    → owner_of k before ≡ some holder
    → Calls holder before owners
    → owner_of k owners ≡ some holder
Calls-holds k holder h no_call = h
Calls-holds k holder h (then_acquire c a run taken calls e) =
    acquire-holds k holder c a run _ _ taken (Calls-holds k holder h calls) e
Calls-holds k holder h (then_release c a run calls other e) =
    release-holds k holder c a run _ _ other (Calls-holds k holder h calls) e

-- What a successful call of `acquire` leaves
acquire-owns :
    (owners owners' : Owners) (connection_id account run : String)
    → acquire owners connection_id account run ≡ ok (true, owners')
    → (owner_of (connection connection_id) owners' ≡ some run)
      × (owner_of (provider_account account) owners' ≡ some run)
unfolding acquire owner_of
acquire-owns owners owners' connection_id account run e =
    keys (str_eq connection_id "" || str_eq account "") e
  where
    IsOwned : Owners → Type 0
    IsOwned o =
        (owner_of (connection connection_id) o ≡ some run)
        × (owner_of (provider_account account) o ≡ some run)

    taken :
        (f s : Option String)
        → ◌≡◌ {A = Bool × Owners}
            (if is_some f || is_some s then (false, owners) else (
              true,
              (provider_account account, run) ∷ (connection connection_id, run) ∷ owners,
            ))
            (true, owners')
        → IsOwned owners'
    taken (some x) s e = cc
    taken none (some x) e = cc
    taken none none e = subst IsOwned (ap owners_after e) (
      rw (key_eq_refl (connection connection_id)) refl,
      rw (key_eq_refl (provider_account account)) refl,
    )

    keys :
        (missing : Bool)
        → (acquire_with owners run (
            if missing
            then err lock_keys_missing
            else ok (connection connection_id, provider_account account)))
          ≡ ok (true, owners')
        → IsOwned owners'
    keys true e = cc
    keys false e =
        taken (owner_of (connection connection_id) owners)
          (owner_of (provider_account account) owners) (ok-injective e)

-- With a connection or an account that is held, `acquire` takes nothing.
acquire-refused :
    (owners : Owners) (connection_id account run holder : String) (r : Bool × Owners)
    → (owner_of (connection connection_id) owners ≡ some holder)
      ⊎ (owner_of (provider_account account) owners ≡ some holder)
    → acquire owners connection_id account run ≡ ok r
    → r ≡ (false, owners)
unfolding acquire
acquire-refused owners connection_id account run holder r held e =
    keys (str_eq connection_id "" || str_eq account "") e
  where
    busy :
        (is_some (owner_of (connection connection_id) owners)
          || is_some (owner_of (provider_account account) owners))
        ≡ true
    busy = elim held [
      | inl h ↦ ap (λ o. is_some o || is_some (owner_of (provider_account account) owners)) h
      | inr h ↦ ground (arith, ap is_some h)
    ]

    keys :
        (missing : Bool)
        → (acquire_with owners run (
            if missing
            then err lock_keys_missing
            else ok (connection connection_id, provider_account account)))
          ≡ ok r
        → r ≡ (false, owners)
    keys true e = cc
    keys false e =
        sym (ok-injective e)
        ∙ ap
            (λ b. if b then (false, owners) else (
              true,
              (provider_account account, run) ∷ (connection connection_id, run) ∷ owners,
            ))
            busy

-- Mutual exclusion: once a run has acquired a connection and an account, then after any calls that
-- are no releases by this run, whoever asks for this connection or for this account, with keys
-- that are not empty, is refused, and nothing changes.
pub acquire-excludes :
    (before owned now : Owners) (connection_id account holder : String)
    → acquire before connection_id account holder ≡ ok (true, owned)
    → Calls holder owned now
    → (run other : String) (r : Bool × Owners)
    → (acquire now connection_id other run ≡ ok r → r ≡ (false, now))
      × (acquire now other account run ≡ ok r → r ≡ (false, now))
acquire-excludes before owned now connection_id account holder e calls run other r =
    let (has_connection, has_account) = acquire-owns before owned connection_id account holder e in
    (
      acquire-refused now connection_id other run holder r
          (inl (Calls-holds (connection connection_id) holder has_connection calls)),
      acquire-refused now other account run holder r
          (inr (Calls-holds (provider_account account) holder has_account calls)),
    )
