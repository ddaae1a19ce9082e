-- ===== src/Liepin/Locks/Tests.antt =====
-- A run holds a connection while another run, which holds another account, releases its own.
use cv_match.Liepin.Locks.{acquire, Owners, owner_of, release, provider_account, connection}
use cv_match.Common.{◌≡◌, [], ok, ◌∷◌, true, false, refl, Bool}
use cv_match.Liepin.Locks.Exclusion.{acquire-excludes, then_release, no_call}

abbrev held : Owners
held = (provider_account "a", "run") ∷ (connection "c", "run") ∷ []

acquired : acquire [] "c" "a" "run" ≡ ok (true, held)
unfolding acquire owner_of
acquired = refl

released : release held "c" "a" "late" ≡ ok held
unfolding release owner_of
released = refl

acquire-excludes_example :
    (acquire held "c" "b" "late" ≡ ok (false, held)
      → ◌≡◌ {A = Bool × Owners} (false, held) (false, held))
    × (acquire held "b" "a" "late" ≡ ok (false, held)
        → ◌≡◌ {A = Bool × Owners} (false, held) (false, held))
acquire-excludes_example =
    acquire-excludes [] held held "c" "a" "run" acquired
      (then_release "c" "a" "late" no_call refl released) "late" "b" (false, held)
