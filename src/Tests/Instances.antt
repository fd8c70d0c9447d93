-- ===== src/Tests/Instances.antt =====
-- Runs of sysctl/instance_owner.py.
use magic_ai_router.Prelude.{
  ℕ, ◌+◌, ◌≡◌, refl, true, false, Option, none, some, [], ◌∷◌, Text, codes, nat_beq, arith,
  if◌then◌else◌,
}
use magic_ai_router.Sysctl.InstanceOwner.{
  Lock, absent, holds, load, holder_alive, lock_record, owns, owns_pid, release, owner, refused,
  step, run,
}
use magic_ai_router.Sysctl.InstanceOwner.Race.{
  IsKept, run-IsKept, start_race, BothOwn, both_take_over, created_then_taken, two_owners,
}

instances : Unit {0}
unfolding load holder_alive owns owns_pid release step run
instances = tt

-- Every process but 7 runs, and was started at its own number.
abbrev table : ℕ → Option ℕ × Option Text
table p = if nat_beq p 7 then (none, none) else (some p, some (codes "app"))

abbrev nonce : ℕ → ℕ
nonce p = p + 100

abbrev alive : Lock
alive = lock_record table 3 103

abbrev dead : Lock
dead = record { pid = 7; start = some 7; exe = none; nonce = 1 }

instance_tests :
    (owns_pid table (holds alive) 3 ≡ true)
    × (owns table (holds alive) 3 (some 4) none ≡ false)
    × (release 4 true (holds alive) ≡ holds alive)
    × (release 3 true (holds alive) ≡ absent)
    × ((run table nonce (1 ∷ 1 ∷ 2 ∷ 2 ∷ []) (start_race absent)).phase 1 ≡ owner)
    × ((run table nonce (1 ∷ 1 ∷ 2 ∷ 2 ∷ []) (start_race absent)).phase 2 ≡ refused)
    × ((run table nonce (1 ∷ 1 ∷ 2 ∷ 2 ∷ 1 ∷ []) (start_race absent)).file ≡ absent)
unfolding instances
instance_tests = (refl, refl, refl, refl, refl, refl, refl)

run-IsKept_example :
    IsKept table nonce alive (run table nonce (1 ∷ 2 ∷ 1 ∷ 2 ∷ 1 ∷ []) (start_race (holds alive)))
unfolding instances
run-IsKept_example =
    run-IsKept table nonce alive refl (1 ∷ 2 ∷ 1 ∷ 2 ∷ 1 ∷ []) (start_race (holds alive))
      (omega arith) (record { kept = refl; bystanders = λ p n. tt })

two_owners_example :
    BothOwn 1 2 (run table nonce (both_take_over 1 2) (start_race (holds dead)))
    × BothOwn 1 2 (run table nonce (created_then_taken 1 2) (start_race absent))
unfolding instances
two_owners_example = two_owners table nonce dead 1 2 refl (omega arith)
