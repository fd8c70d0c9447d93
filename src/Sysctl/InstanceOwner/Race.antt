-- ===== src/Sysctl/InstanceOwner/Race.antt =====
-- Two processes that run `acquire` of sysctl/instance_owner.py at once.
use magic_ai_router.Prelude.{
  ℕ, ◌≡◌, ◌≢◌, refl, ap, sym, subst, ◌∙◌, inl, inr, true, false, Option, some, List, [], ◌∷◌, Text,
  All, nat_beq, nat_beq_iff, Bool-cases, if◌then◌else◌,
}
use magic_ai_router.Sysctl.InstanceOwner.{
  Lock, File, absent, unreadable, holds, load, is_holder, holder_alive, release, Phase, outside,
  met, created, found_dead, replaced, owner, refused, released, World, move, create, advance, step,
  run,
}

-- The phases of a process that has not touched the file.
abbrev pub Bystands : Phase → Type 0
Bystands outside = Unit
Bystands met = Unit
Bystands refused = Unit
Bystands released = Unit
Bystands _ = ⊥

module _ (pid_info : ℕ → Option ℕ × Option Text) (nonce : ℕ → ℕ) (r : Lock) where
  -- The file holds the record, and no process but its own has touched it.
  pub record IsKept (w : World) : Type 0 where
    pub kept : w.file ≡ holds r
    pub bystanders : (p : ℕ) → p ≢ r.pid → Bystands (w.phase p)

  move-IsKept : (p : ℕ) (a : Phase) (w : World) → Bystands a → IsKept w → IsKept (move p a w)
  move-IsKept p a w b k = record {
    kept = k.kept;
    bystanders = λ q n. elim (Bool-cases (nat_beq p q)) [
      | inl same ↦ rw same b
      | inr other ↦ rw other (k.bystanders q n)
    ];
  }

  -- A process that does not hold the lock cannot release it.
  release-other : (p : ℕ) → p ≢ r.pid → release p true (holds r) ≡ holds r
  unfolding release load
  release-other p n = elim (Bool-cases (nat_beq r.pid p)) [
    | inl same ↦ absurd (n (sym ((nat_beq_iff r.pid p).0 same)))
    | inr other ↦ rw other refl
  ]

  create-met : (p : ℕ) (w : World) → w.file ≡ holds r → create p w ≡ move p met w
  create-met p w = go w.file
    where
      go :
          (f : File)
          → f ≡ holds r
          → (elim f [
            | absent ↦ record (move p created w) { file = unreadable (some p) }
            | _ ↦ move p met w
          ])
            ≡ move p met w
      go absent h = cc
      go (unreadable o) h = refl
      go (holds l) h = refl

  met-IsKept :
      is_holder pid_info (some r) ≡ true
      → (p : ℕ) (w : World) → IsKept w
      → IsKept (move p (if holder_alive pid_info w.file then refused else found_dead) w)
  unfolding holder_alive load
  met-IsKept alive p w k =
      subst (λ b. IsKept (move p (if b then refused else found_dead) w))
        (sym (ap (λ f. holder_alive pid_info f) k.kept ∙ alive)) (move-IsKept p refused w tt k)

  refused-IsKept :
      (p : ℕ) (w : World)
      → p ≢ r.pid
      → IsKept w
      → IsKept (record (move p released w) { file = release p true w.file })
  refused-IsKept p w n k = record {
    kept = ap (release p true) k.kept ∙ release-other p n;
    bystanders = (move-IsKept p released w tt k).bystanders;
  }

  advance-IsKept :
      is_holder pid_info (some r) ≡ true
      → (a : Phase) (p : ℕ) (w : World) → Bystands a
      → p ≢ r.pid
      → IsKept w
      → IsKept (advance pid_info nonce a p w)
  advance-IsKept alive outside p w b n k =
      subst IsKept (sym (create-met p w k.kept)) (move-IsKept p met w tt k)
  advance-IsKept alive met p w b n k = met-IsKept alive p w k
  advance-IsKept alive refused p w b n k = refused-IsKept p w n k
  advance-IsKept alive released p w b n k = k
  advance-IsKept alive created p w b n k = absurd b
  advance-IsKept alive found_dead p w b n k = absurd b
  advance-IsKept alive replaced p w b n k = absurd b
  advance-IsKept alive owner p w b n k = absurd b

  -- While the process that a lock records runs with the recorded start time, and if at the start
  -- the file holds the record and no other process is between creating the file, or finding the
  -- recorded process dead, and the end of its takeover, then any calls of other processes, in any
  -- order, leave the lock as it is, and none of those processes becomes owner.
  pub run-IsKept :
      is_holder pid_info (some r) ≡ true
      → (ps : List ℕ) (w : World) → All (λ p. p ≢ r.pid) ps
      → IsKept w
      → IsKept (run pid_info nonce ps w)
  unfolding run step
  run-IsKept alive [] w n k = k
  run-IsKept alive (p ∷ ps) w n k =
      run-IsKept alive ps (step pid_info nonce p w) n.1
        (advance-IsKept alive (w.phase p) p w (k.bystanders p n.0) n.0 k)

apart_test : (p q : ℕ) → p ≢ q → nat_beq p q ≡ false
apart_test p q n = elim (Bool-cases (nat_beq p q)) [
  | inl same ↦ absurd (n ((nat_beq_iff p q).0 same))
  | inr other ↦ other
]

-- Two processes before `acquire`, and the calls of the two in an order that lets both take over.
abbrev pub both_take_over : ℕ → ℕ → List ℕ
both_take_over p q = p ∷ q ∷ p ∷ q ∷ p ∷ p ∷ q ∷ q ∷ []

abbrev pub start_race : File → World
start_race file = record { file = file; phase = λ _. outside }

-- With no file at first, one is judged by the file that the other has created and not yet written.
abbrev pub created_then_taken : ℕ → ℕ → List ℕ
created_then_taken p q = p ∷ q ∷ q ∷ p ∷ q ∷ q ∷ []

-- Both of two processes own the lock.
abbrev pub BothOwn : ℕ → ℕ → World → Type 0
BothOwn p q w = (w.phase p ≡ owner) × (w.phase q ≡ owner)

pub two_owners :
    (pid_info : ℕ → Option ℕ × Option Text) (nonce : ℕ → ℕ) (r : Lock) (p q : ℕ)
    → is_holder pid_info (some r) ≡ false
    → p ≢ q
    → BothOwn p q (run pid_info nonce (both_take_over p q) (start_race (holds r)))
      × BothOwn p q (run pid_info nonce (created_then_taken p q) (start_race absent))
unfolding run step holder_alive load
two_owners pid_info nonce r p q dead apart =
    let own = λ (n : ℕ). (nat_beq_iff n n).1 refl in
    simp
      (
        own p,
        own q,
        own (nonce p),
        own (nonce q),
        apart_test p q apart,
        apart_test q p (λ e. apart (sym e)),
        dead,
      )
      ((refl, refl), (refl, refl))
