-- ===== src/Security/Tests.antt =====
-- Connections and handshakes of two addresses, and the theorems at them.
use curf.Common.{◌≡◌, refl, true, false, List, [], ◌∷◌, arith, ok, err}
use curf.Common.Dict.{lookup, insert}
use curf.Common.Address.{IpAddr, v4, ip_key}
use curf.Config.{SecurityFlags, default_security_flags}
use curf.Security.{
  new, is_blocked, check_and_acquire_connection, release_connection, record_tls_failure,
}
use curf.Security.Slots.{Held, Step, Reach, IsHeld, fresh, Reach-IsHeld}
use curf.Security.Abuse.{Event, connects, tls_fails, run, step, failures_in, is_abuser, run-blocked}

checker : Unit {0}
unfolding check_and_acquire_connection release_connection record_tls_failure new lookup insert
checker = tt

abbrev ann : IpAddr
ann = v4 1

abbrev bob : IpAddr
bob = v4 2

abbrev flags : SecurityFlags
flags = record default_security_flags { max_tls_failures = 2 }

abbrev one_in : Held
one_in = record { checker = (check_and_acquire_connection ann (new 1 flags)).0; guards = ann ∷ [] }

history : Reach (fresh 1 flags) one_in
unfolding checker
history = Reach.next Reach.here (Step.accepts ann refl)

-- With a limit of one the second connection of an address is refused, another address is not.
second_connection :
    ((check_and_acquire_connection ann one_in.checker).1 ≡ err tt)
    × ((check_and_acquire_connection bob one_in.checker).1 ≡ ok tt)
unfolding checker
second_connection = (refl, refl)

Reach-IsHeld_example : IsHeld 1 one_in
Reach-IsHeld_example = Reach-IsHeld 1 flags one_in history

abbrev attack : List Event
attack = tls_fails bob ∷ connects ann ∷ tls_fails bob ∷ []

blocks_bob :
    (is_blocked bob (run (new 1 flags) attack) ≡ true)
    × (is_blocked ann (run (new 1 flags) attack) ≡ false)
unfolding checker run step
blocks_bob = (refl, refl)

run-blocked_example :
    (is_blocked bob (run (new 1 flags) attack) ≡ is_abuser flags (failures_in bob attack))
    × (is_abuser flags (failures_in bob attack) ≡ true
        → check_and_acquire_connection bob (run (new 1 flags) attack)
          ≡ (run (new 1 flags) attack, err tt))
run-blocked_example = run-blocked flags bob 1 attack (omega arith)
