-- ===== src/Mounts/Coordinator/Jobs.antt =====
-- mount/coordinator.py: no mount is worked on by two jobs at once.
use magic_ai_router.Prelude.{
  ℕ, zero, suc, ◌+◌, ◌≡◌, refl, sym, ap, subst, ◌∙◌, inl, inr, Bool, true, false, some, List, [],
  ◌∷◌, ◌++◌, Dict, lookup, insert, lookup-insert, get_elem?, text_key, ◌==◌, Bool-cases, arith,
  if◌then◌else◌,
}
use magic_ai_router.Mpconf.Validate.Ports.{int_key}
use magic_ai_router.Mounts.Coordinator.{
  MountKey, mount_key, MountState, Job, mount_job, unmount_job, Coordinator, state_or_new, state_of,
  claim,
}
use magic_ai_router.Mounts.Coordinator.Runs.{without}

abbrev pub key_of : Job → MountKey
key_of (mount_job k row) = k
key_of (unmount_job k) = k

abbrev pub jobs_on : MountKey → List Job → ℕ
jobs_on k [] = 0
jobs_on k (j ∷ js) = if key_of j == k then jobs_on k js + 1 else jobs_on k js

-- A mount is busy exactly while a job on it has not ended, and there is one at most.
abbrev pub Matches : Dict MountKey MountState → List Job → Type 0
Matches states jobs =
    (k : MountKey) → jobs_on k jobs ≡ (if (state_or_new (lookup k states)).busy then 1 else 0)

pub state-insert :
    (k j : MountKey) (s : MountState) (m : Dict MountKey MountState)
    → state_or_new (lookup j (insert k s m)) ≡ (if k == j then s else state_or_new (lookup j m))
state-insert k j s m = rw (lookup-insert k j s m) (go (k == j))
  where
    go :
        (b : Bool)
        → state_or_new (if b then some s else lookup j m)
          ≡ (if b then s else state_or_new (lookup j m))
    go true = refl
    go false = refl

pub jobs_on-append :
    (k : MountKey) (a b : List Job) → jobs_on k (a ++ b) ≡ jobs_on k a + jobs_on k b
jobs_on-append k [] b = omega arith
jobs_on-append k (j ∷ a) b = elim (Bool-cases (key_of j == k)) [
  | inl same ↦ rw same (omega (arith, jobs_on-append k a b))
  | inr other ↦ rw other (jobs_on-append k a b)
]

add-if : (b : Bool) (n : ℕ) → (if b then n + 1 else n) ≡ n + (if b then 1 else 0)
add-if true n = refl
add-if false n = omega arith

zero-one : (b : Bool) (n : ℕ) → n + 1 ≡ (if b then 1 else 0) → n ≡ 0
zero-one true n h = omega arith
zero-one false n h = absurd (omega arith)

same-key : (i j : Job) → some i ≡ some j → key_of i ≡ key_of j
same-key i j h = cc

pub at_key {ℓ} : (P : MountKey → Type ℓ) (k j : MountKey) → (k == j) ≡ true → P k → P j
at_key P k j same = subst P ((mount_key.same_key_iff k j).0 same)

-- The job at a place, and the others.
jobs_on-without :
    (k : MountKey) (n : ℕ) (js : List Job) (j : Job)
    → get_elem? js n ≡ some j
    → jobs_on k js ≡ jobs_on k (without n js) + (if key_of j == k then 1 else 0)
jobs_on-without k n [] j h = cc
jobs_on-without k zero (i ∷ js) j h =
    add-if (key_of i == k) (jobs_on k js)
    ∙ ap (λ (x : MountKey). jobs_on k js + (if x == k then 1 else 0)) (same-key i j h)
jobs_on-without k (suc n) (i ∷ js) j h = elim (Bool-cases (key_of i == k)) [
  | inl same ↦ rw same (omega (arith, jobs_on-without k n js j h))
  | inr other ↦ rw other (jobs_on-without k n js j h)
]

pub set_state-Matches :
    (k : MountKey) (s : MountState) (c : Coordinator)
    → s.busy ≡ (state_of c k).busy
    → Matches c.states c.jobs
    → Matches (insert k s c.states) c.jobs
set_state-Matches k s c same h j = rw (state-insert k j s c.states) (elim (Bool-cases (k == j)) [
  | inl here ↦ rw here (
      rw same
        (at_key (λ x. jobs_on x c.jobs ≡ (if (state_of c k).busy then 1 else 0)) k j here (h k)))
  | inr other ↦ rw other (h j)
])

pub claim-Matches :
    (k : MountKey) (s : MountState) (job : Job) (c : Coordinator)
    → key_of job ≡ k
    → (state_of c k).busy ≡ false
    → Matches c.states c.jobs
    → Matches (claim k s job c).states (claim k s job c).jobs
claim-Matches k s job c own idle h j = rw (state-insert k j (record s { busy = true }) c.states) (
    rw (jobs_on-append j c.jobs (job ∷ [])) (
      rw own (elim (Bool-cases (k == j)) [
        | inl here ↦ rw here (
            at_key (λ x. jobs_on x c.jobs + 1 ≡ 1) k j here
              (let none_yet : jobs_on k c.jobs ≡ 0 = h k ∙ ap (λ b. if b then 1 else 0) idle in
                omega arith))
        | inr other ↦ rw other (omega (arith, h j))
      ])))

-- What a job leaves when it ends.
pub ended-Matches :
    (n : ℕ) (job : Job) (s : MountState) (c : Coordinator)
    → get_elem? c.jobs n ≡ some job
    → s.busy ≡ false
    → Matches c.states c.jobs
    → Matches (insert (key_of job) s c.states) (without n c.jobs)
ended-Matches n job s c found idle h j =
    rw (state-insert (key_of job) j s c.states) (elim (Bool-cases (key_of job == j)) [
      | inl here ↦ rw here (
          let total : jobs_on j c.jobs ≡ jobs_on j (without n c.jobs) + 1 =
            jobs_on-without j n c.jobs job found
            ∙ ap (λ b. jobs_on j (without n c.jobs) + (if b then 1 else 0)) here in
          zero-one (state_or_new (lookup j c.states)).busy (jobs_on j (without n c.jobs))
            (sym total ∙ h j)
          ∙ sym (ap (λ b. if b then 1 else 0) idle))
      | inr other ↦ rw other (
          let total : jobs_on j c.jobs ≡ jobs_on j (without n c.jobs) + 0 =
            jobs_on-without j n c.jobs job found
            ∙ ap (λ b. jobs_on j (without n c.jobs) + (if b then 1 else 0)) other in
          omega (arith, h j))
    ])
