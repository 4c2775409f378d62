-- ===== src/Kaapi/Dependencies/Activate.antt =====
-- kaapi_sched_activate_syncpoint: the completion of the accesses of a group, and the release of the next.
use xkblas.Base.{
  ◌⊎◌, All-weaken, ℕ, zero, suc, ◌+◌, ◌-◌, ◌<◌, ◌≤◌, ◌≡◌, ◌≢◌, refl, ap, ◌∙◌, arith, Bool, true,
  false, ◌||◌, ==_iff, List, [], ◌∷◌, length, ◌==◌, if◌then◌else◌, update, Bool-cases, inl, inr,
  All,
}
use xkblas.Kaapi.Dependencies.{
  Dfg, atomic_decr, activate_access, activate_accesses, kaapi_sched_activate_syncpoint,
}
use xkblas.Kaapi.Dependencies.Groups.{Member, Group, members}
use xkblas.Kaapi.Dependencies.Links.{pred, Linked, Holds, IsGroup}

-- The members of a group in the order of their submission.
unfoldable pub oldest_first : List Member → List Member → List Member
oldest_first [] rest = rest
oldest_first (m ∷ ms) rest = oldest_first ms (m ∷ rest)

-- The release of a list of accesses, each with its task.
unfoldable pub activate_members : Dfg → List Member → Dfg × ℕ
activate_members dfg [] = (dfg, 0)
activate_members dfg (m ∷ ms) =
    let one = activate_access dfg m.access in
    let rest = activate_members one.0 ms in (rest.0, one.1 + rest.1)

-- From a pointer, the fields `next` lead through the accesses to the null pointer.
unfoldable pub Chain : (ℕ → ℕ) → ℕ → List Member → Type 0
Chain next p [] = p ≡ 0
Chain next p (m ∷ ms) = (p ≡ m.access) × (m.access ≢ 0) × Chain next (next m.access) ms

pub Linked-Chain :
    (next : ℕ → ℕ) (before : ℕ) (ms rest : List Member)
    → Linked next before ms
    → All (λ (m : Member). m.access ≢ 0) ms
    → Chain next (next (pred before ms)) rest
    → Chain next (next before) (oldest_first ms rest)
unfolding Linked All pred oldest_first Chain
Linked-Chain next before [] rest l nz c = c
Linked-Chain next before (m ∷ ms) rest l nz c =
    Linked-Chain next before ms (m ∷ rest) l.1 nz.1 (l.0, nz.0, c)

pub length-oldest_first :
    (ms rest : List Member) → length (oldest_first ms rest) ≡ length ms + length rest
unfolding oldest_first
length-oldest_first [] rest = omega arith
length-oldest_first (m ∷ ms) rest = omega (arith, length-oldest_first ms (m ∷ rest))

activate_access-next : (dfg : Dfg) (a : ℕ) → (activate_access dfg a).0.next ≡ dfg.next
unfolding activate_access
activate_access-next dfg a = elim (Bool-cases (atomic_decr (dfg.task_wc (dfg.task a)) == 0)) [
  | inl t ↦ rw t refl
  | inr f ↦ rw f refl
]

-- The loop goes through the whole chain on fuel that is at least its length.
pub activate_accesses-Chain :
    (fuel : ℕ) (dfg : Dfg) (p : ℕ) (ms : List Member)
    → Chain dfg.next p ms
    → length ms ≤ fuel
    → activate_accesses fuel dfg p ≡ activate_members dfg ms
unfolding activate_accesses activate_members Chain
activate_accesses-Chain zero dfg p [] c h = refl
activate_accesses-Chain (suc fuel) dfg p [] c h = rw c refl
activate_accesses-Chain zero dfg p (m ∷ ms) c h = absurd (omega arith)
activate_accesses-Chain (suc fuel) dfg p (m ∷ ms) c h =
    let f : m.access == 0 ≡ false = let nz = c.1 in ground arith in
    let one = activate_access dfg m.access in
    let same = activate_access-next dfg m.access in
    let rest =
      activate_accesses-Chain fuel one.0 (one.0.next m.access) ms (rw same c.2) (omega arith) in
    rw c.0 (rw (activate_accesses, f, rest) refl)

-- the number of the accesses of a task
unfoldable pub accesses_by : ℕ → List Member → ℕ
accesses_by t [] = 0
accesses_by t (m ∷ ms) = (if m.task == t then 1 else 0) + accesses_by t ms

-- The address is one of the accesses.
unfoldable pub any_of : ℕ → List Member → Bool
any_of x [] = false
any_of x (m ∷ ms) = (x == m.access) || any_of x ms

swap : (a b c : Bool) → (b || (if a then true else c)) ≡ ((a || b) || c)
swap true true c = refl
swap true false c = refl
swap false b c = refl

-- how often a task is in a list
unfoldable pub times : ℕ → List ℕ → ℕ
times t [] = 0
times t (x ∷ xs) = (if x == t then 1 else 0) + times t xs

-- What the release of accesses does to the memory, with the number that it reports: exactly these
-- become ready in addition to those that are, the counter of each task goes down by the number of its
-- accesses among them, and the tasks that have one and now wait for nothing are added once each to the
-- ready list.
pub record Released (dfg : Dfg) (ms : List Member) (r : Dfg × ℕ) : Type 0 where
  pub ready : (x : ℕ) → r.0.ready x ≡ any_of x ms || dfg.ready x
  pub counter : (t : ℕ) → accesses_by t ms + r.0.task_wc t ≡ dfg.task_wc t
  pub pushed :
      (t : ℕ)
      → times t r.0.pushed
        ≡ (if accesses_by t ms == 0 then 0 else if r.0.task_wc t == 0 then 1 else 0)
          + times t dfg.pushed
  pub reported : r.1 + length dfg.pushed ≡ length r.0.pushed
  pub same_wc : r.0.wc ≡ dfg.wc
  pub same_task : r.0.task ≡ dfg.task

activate_access-ready :
    (dfg : Dfg) (a x : ℕ)
    → (activate_access dfg a).0.ready x ≡ (if x == a then true else dfg.ready x)
unfolding activate_access
activate_access-ready dfg a x = elim (Bool-cases (atomic_decr (dfg.task_wc (dfg.task a)) == 0)) [
  | inl t ↦ rw (activate_access, t) refl
  | inr f ↦ rw (activate_access, f) refl
]

pub activate_members-ready :
    (dfg : Dfg) (ms : List Member) (x : ℕ)
    → (activate_members dfg ms).0.ready x ≡ any_of x ms || dfg.ready x
unfolding activate_members any_of
activate_members-ready dfg [] x = refl
activate_members-ready dfg (m ∷ ms) x =
    activate_members-ready (activate_access dfg m.access).0 ms x
    ∙ ap (λ b. any_of x ms || b) (activate_access-ready dfg m.access x)
    ∙ swap (x == m.access) (any_of x ms) (dfg.ready x)

atomic_decr_lem : (n : ℕ) → 0 < n → atomic_decr n ≡ n - 1
unfolding atomic_decr
atomic_decr_lem n h = let f : n == 0 ≡ false = ground arith in rw f refl

module _ (dfg : Dfg) (m : Member) (same : dfg.task m.access ≡ m.task)
    (some_left : 0 < dfg.task_wc m.task) where
  abbrev one : Dfg × ℕ
  one = activate_access dfg m.access

  abbrev here : ℕ → ℕ
  here t = if m.task == t then 1 else 0

  counted : (t : ℕ) → here t + update dfg.task_wc m.task (dfg.task_wc m.task - 1) t ≡ dfg.task_wc t
  counted t = elim (Bool-cases (m.task == t)) [
    | inl e ↦ let p = (==_iff m.task t).0 e in rw⁻¹ p (ground arith)
    | inr f ↦ ground arith
  ]

  pushes :
      (t : ℕ)
      → (if dfg.task_wc m.task - 1 == 0 then here t else 0)
        ≡ (if update dfg.task_wc m.task (dfg.task_wc m.task - 1) t == 0 then here t else 0)
  pushes t = elim (Bool-cases (m.task == t)) [
    | inl e ↦ let p = (==_iff m.task t).0 e in rw⁻¹ p (ground arith)
    | inr f ↦ ground arith
  ]

  one-Released :
      ((t : ℕ) → here t + one.0.task_wc t ≡ dfg.task_wc t)
      × ((t : ℕ)
          → times t one.0.pushed
            ≡ (if one.0.task_wc t == 0 then here t else 0) + times t dfg.pushed)
      × (one.1 + length dfg.pushed ≡ length one.0.pushed)
      × (one.0.wc ≡ dfg.wc)
      × (one.0.task ≡ dfg.task)
  unfolding activate_access times
  one-Released =
      let z = atomic_decr_lem (dfg.task_wc m.task) some_left in
      elim (Bool-cases (dfg.task_wc m.task - 1 == 0)) [
        | inl t ↦
            rw (activate_access, same, z, t)
              (
                counted,
                λ x. let p = pushes x in let q = (rw t at p) in omega (arith, q),
                omega arith,
                refl,
                refl,
              )
        | inr f ↦
            rw (activate_access, same, z, f)
              (
                counted,
                λ x. let p = pushes x in let q = (rw f at p) in omega (arith, q),
                omega arith,
                refl,
                refl,
              )
      ]

pub activate_members-Released :
    (dfg : Dfg) (ms : List Member)
    → All (λ (m : Member). dfg.task m.access ≡ m.task) ms
    → ((t : ℕ) → accesses_by t ms ≤ dfg.task_wc t)
    → Released dfg ms (activate_members dfg ms)
unfolding activate_members accesses_by any_of All
activate_members-Released dfg [] h wait = record {
  ready = λ x. refl;
  counter = λ t. omega arith;
  pushed = λ t. omega arith;
  reported = omega arith;
  same_wc = refl;
  same_task = refl;
}
activate_members-Released dfg (m ∷ ms) h wait =
    let some_left : 0 < dfg.task_wc m.task = let w = wait m.task in ground arith in
    let first = one-Released dfg m h.0 some_left in
    let after = (activate_access dfg m.access).0 in
    let rest =
      activate_members-Released after ms (rw first.4 h.1)
        (λ t. let w = wait t in let c = first.0 t in omega arith) in
    record {
      ready = activate_members-ready dfg (m ∷ ms);
      counter = λ t. let c = first.0 t in let r = rest.counter t in omega arith;
      pushed = λ t.
          let c = first.0 t in
          let p = first.1 t in let r = rest.counter t in let q = rest.pushed t in ground arith;
      reported = let r = rest.reported in let o = first.2 in omega arith;
      same_wc = rest.same_wc ∙ first.3;
      same_task = rest.same_task ∙ first.4;
    }

swap_or : (a b c : Bool) → (b || (a || c)) ≡ ((a || b) || c)
swap_or true true c = refl
swap_or true false c = refl
swap_or false true c = refl
swap_or false false c = refl

-- The order of a list of accesses does not matter for its members and their number.
any_of-oldest_first :
    (x : ℕ) (ms rest : List Member) → any_of x (oldest_first ms rest) ≡ any_of x ms || any_of x rest
unfolding any_of oldest_first
any_of-oldest_first x [] rest = refl
any_of-oldest_first x (m ∷ ms) rest =
    any_of-oldest_first x ms (m ∷ rest) ∙ swap_or (x == m.access) (any_of x ms) (any_of x rest)

accesses_by-oldest_first :
    (t : ℕ) (ms rest : List Member)
    → accesses_by t (oldest_first ms rest) ≡ accesses_by t ms + accesses_by t rest
unfolding accesses_by oldest_first
accesses_by-oldest_first t [] rest = omega arith
accesses_by-oldest_first t (m ∷ ms) rest = omega (arith, accesses_by-oldest_first t ms (m ∷ rest))

pub oldest_first-All :
    (P : Member → Type 0) (ms rest : List Member)
    → All P ms
    → All P rest
    → All P (oldest_first ms rest)
unfolding All oldest_first
oldest_first-All P [] rest a b = b
oldest_first-All P (m ∷ ms) rest a b = oldest_first-All P ms (m ∷ rest) a.1 (a.0, b)

reordered :
    (dfg : Dfg) (ms : List Member) (r : Dfg × ℕ)
    → Released dfg (oldest_first ms []) r
    → Released dfg ms r
unfolding any_of accesses_by
reordered dfg ms r released =
    let same : (t : ℕ) → accesses_by t (oldest_first ms []) ≡ accesses_by t ms =
      λ t. omega (arith, accesses_by-oldest_first t ms []) in
    record {
      ready = λ x.
          released.ready x
          ∙ ap (λ b. b || dfg.ready x) (any_of-oldest_first x ms [] ∙ or_false (any_of x ms));
      counter = λ t. rw⁻¹ (same t) (released.counter t);
      pushed = λ t. rw⁻¹ (same t) (released.pushed t);
      reported = released.reported;
      same_wc = released.same_wc;
      same_task = released.same_task;
    }
  where
    or_false : (b : Bool) → b || false ≡ b
    or_false true = refl
    or_false false = refl

-- When an access of a group has completed, kaapi_sched_activate_syncpoint counts down the
-- synchronisation point of the group. Before the last one it does nothing else. With the last one it
-- releases the accesses of the next group: exactly these become ready in addition to those that are,
-- the counter of each task goes down by the number of its accesses among them, the tasks that have
-- one and now wait for nothing are pushed, each once, and their number is returned. It is for a group
-- that the memory represents, at addresses that are not null, with fuel for its accesses, when the
-- counter of each task is at least the number of its accesses in the group.
pub last_completion_releases :
    (dfg : Dfg) (g : Group) (fuel left : ℕ)
    → IsGroup dfg g
    → All (λ (m : Member). m.access ≢ 0) (members g)
    → length (members g) ≤ fuel
    → ((t : ℕ) → accesses_by t (members g) ≤ dfg.task_wc t)
    → dfg.wc g.before ≡ suc left
    → ((0 < left)
        × (kaapi_sched_activate_syncpoint fuel dfg g.before
            ≡ (record dfg { wc = update dfg.wc g.before left }, 0)))
      ⊎ ((left ≡ 0)
          × Released
              (record dfg { wc = update dfg.wc g.before 0 })
              (members g)
              (kaapi_sched_activate_syncpoint fuel dfg g.before))
unfolding kaapi_sched_activate_syncpoint IsGroup Chain pred All accesses_by
last_completion_releases dfg g fuel (suc left) is nz enough wait count =
    let less : dfg.wc g.before - 1 ≡ suc left = omega arith in
    let more : suc left == 0 ≡ false = ground arith in
    inl (omega arith, rw (kaapi_sched_activate_syncpoint, less, more) refl)
last_completion_releases dfg g fuel zero is nz enough wait count =
    let less : dfg.wc g.before - 1 ≡ 0 = omega arith in
    let counted = record dfg { wc = update dfg.wc g.before 0 } in
    let chain = Linked-Chain dfg.next g.before (members g) [] is.0 nz is.1 in
    let run =
      activate_accesses-Chain fuel counted (dfg.next g.before) (oldest_first (members g) []) chain
        (omega (arith, length-oldest_first (members g) [])) in
    let tasks =
      oldest_first-All (λ (m : Member). counted.task m.access ≡ m.task) (members g) []
        (All-weaken (Holds dfg g.sync) _ (λ (m : Member) h. h.2) (members g) is.2) tt in
    let bound : (t : ℕ) → accesses_by t (oldest_first (members g) []) ≤ counted.task_wc t =
      λ t. omega (arith, wait t, accesses_by-oldest_first t (members g) []) in
    inr (
      refl,
      rw (less, run)
          (reordered counted (members g) (activate_members counted (oldest_first (members g) []))
            (activate_members-Released counted (oldest_first (members g) []) tasks bound)),
    )
