-- ===== src/Connections/Runs.antt =====
-- Runs of the controller of the connections.
use dnss_cpp.Common.{◌≡◌, refl, true, false, none, [], ◌∷◌, map, ◌==◌}
use dnss_cpp.Http.Url.{Address, target_of}
use dnss_cpp.Connections.{
  Controller, create, manage, unmanage, notify_failure, lose, fail_check, reconnect_delay,
  find_entry, replace, erase, cancel,
}
use dnss_cpp.Connections.Rounds.{
  check_interval, run_round, is_due, is_down, select, mark_down, indices_down, scan_down, push_work,
  push_works, fail_checks,
}
use dnss_cpp.Connections.Checks.{after_round, run_round-after_round}
use dnss_cpp.Connections.Reach.{managed}

abbrev address : Address
address = record { host = b'a' ∷ []; port = b'8' ∷ []; target = target_of none }

-- A connection that is down is managed, and a round scans it.
abbrev down : Controller
down = scan_down (manage 0 address 7 false create)

reconnect_delay-first : reconnect_delay 0 ≡ 5
unfolding reconnect_delay
reconnect_delay-first = refl

reconnect_delay-last : reconnect_delay 9 ≡ 320
unfolding reconnect_delay
reconnect_delay-last = refl

-- Of three connections, the first fails its check, and the second is down.
abbrev three : Controller
three = manage 0 address 9 true (manage 0 address 8 false (manage 0 address 7 true create))

run_round-after_round_example :
    (run_round check_interval (λ s. s == 9) three).managed
    ≡ map (after_round check_interval (λ s. s == 9)) three.managed
unfolding manage
run_round-after_round_example =
    run_round-after_round check_interval (λ s. s == 9) three
      ((refl, (refl, tt)), ((refl, tt), (tt, tt)))

-- A connection that is down is marked once.
run_round-twice :
    run_round 1 (λ s. true) (run_round 0 (λ s. true) (manage 0 address 7 false create))
    ≡ run_round 0 (λ s. true) (manage 0 address 7 false create)
unfolding run_round manage select is_due is_down mark_down indices_down scan_down push_work
    push_works fail_checks
run_round-twice = refl

-- A check that failed for a stream that has moved changes nothing.
fail_check-moved :
    fail_check (0, 8) (manage 0 address 7 true create) ≡ manage 0 address 7 true create
unfolding fail_check manage
fail_check-moved = refl

-- The work of a connection that is no longer managed is cancelled.
unmanage-broken : unmanage 7 (notify_failure 7 (manage 0 address 7 true create)) ≡ create
unfolding manage notify_failure lose find_entry replace unmanage erase cancel
unmanage-broken = refl
