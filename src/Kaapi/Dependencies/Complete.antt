-- ===== src/Kaapi/Dependencies/Complete.antt =====
-- The completion of all accesses of a group.
use xkblas.Base.{
  ℕ, zero, suc, ◌-◌, ◌≤◌, ◌≡◌, ◌≢◌, refl, sym, subst, ◌∙◌, arith, Bool, true, false, ◌||◌, List, [],
  ◌∷◌, length, ◌==◌, update, All, All-weaken,
}
use xkblas.Kaapi.Dependencies.{Dfg, kaapi_sched_activate_syncpoint}
use xkblas.Kaapi.Dependencies.Groups.{Member, Group, members}
use xkblas.Kaapi.Dependencies.Links.{pred, Holds, IsGroup}
use xkblas.Kaapi.Dependencies.Activate.{
  oldest_first, activate_members, Chain, Linked-Chain, length-oldest_first, activate_accesses-Chain,
  any_of, activate_members-ready, oldest_first-All,
}

-- The calls of kaapi_sched_activate_syncpoint for a number of completed accesses.
unfoldable pub complete : ℕ → ℕ → Dfg → ℕ → Dfg
complete fuel zero dfg sync = dfg
complete fuel (suc n) dfg sync =
    complete fuel n (kaapi_sched_activate_syncpoint fuel dfg sync).0 sync

abbrev pub AreReady : Dfg → List Member → Type 0
AreReady dfg ms = All (λ (m : Member). dfg.ready m.access ≡ true) ms

abbrev HaveTasks : Dfg → List Member → Type 0
HaveTasks dfg ms = All (λ (m : Member). dfg.task m.access ≡ m.task) ms

oldest_first-All_back :
    (P : Member → Type 0) (ms rest : List Member)
    → All P (oldest_first ms rest)
    → All P ms × All P rest
unfolding All oldest_first
oldest_first-All_back P [] rest a = (tt, a)
oldest_first-All_back P (m ∷ ms) rest a =
    let r = oldest_first-All_back P ms (m ∷ rest) a in ((r.1.0, r.0), r.1.1)

any_of-All : (ms : List Member) → All (λ (m : Member). any_of m.access ms ≡ true) ms
unfolding All any_of
any_of-All [] = tt
any_of-All (m ∷ ms) =
    let here : m.access == m.access ≡ true = ground arith in
    (rw here refl, All-weaken _ _ (λ (x : Member) e. later x e) ms (any_of-All ms))
  where
    or_true : (b : Bool) → b || true ≡ true
    or_true true = refl
    or_true false = refl

    later :
        (x : Member)
        → any_of x.access ms ≡ true
        → ((x.access == m.access) || any_of x.access ms) ≡ true
    later x e = rw e (or_true (x.access == m.access))

released-AreReady :
    (dfg : Dfg) (ms : List Member) → HaveTasks dfg ms → AreReady (activate_members dfg ms).0 ms
released-AreReady dfg ms h =
    All-weaken (λ (m : Member). any_of m.access ms ≡ true)
      (λ (m : Member). (activate_members dfg ms).0.ready m.access ≡ true)
      (λ (m : Member) e. activate_members-ready dfg ms m.access ∙ rw e refl) ms (any_of-All ms)

last_call :
    (fuel : ℕ) (dfg : Dfg) (sync : ℕ) (ms : List Member)
    → Chain dfg.next (dfg.next sync) ms
    → length ms ≤ fuel
    → dfg.wc sync ≡ 1
    → kaapi_sched_activate_syncpoint fuel dfg sync
      ≡ activate_members (record dfg { wc = update dfg.wc sync 0 }) ms
unfolding kaapi_sched_activate_syncpoint
last_call fuel dfg sync ms chain enough count =
    let less : dfg.wc sync - 1 ≡ 0 = omega arith in
    let run =
      activate_accesses-Chain fuel (record dfg { wc = update dfg.wc sync 0 }) (dfg.next sync) ms
        chain enough in
    rw (less, run) refl

earlier_call :
    (fuel left : ℕ) (dfg : Dfg) (sync : ℕ)
    → dfg.wc sync ≡ suc (suc left)
    → kaapi_sched_activate_syncpoint fuel dfg sync
      ≡ (record dfg { wc = update dfg.wc sync (suc left) }, 0)
unfolding kaapi_sched_activate_syncpoint
earlier_call fuel left dfg sync count =
    let less : dfg.wc sync - 1 ≡ suc left = omega arith in
    let more : suc left == 0 ≡ false = ground arith in rw (less, more) refl

complete_lem :
    (fuel left : ℕ) (dfg : Dfg) (sync : ℕ) (ms : List Member)
    → Chain dfg.next (dfg.next sync) ms
    → length ms ≤ fuel
    → HaveTasks dfg ms
    → dfg.wc sync ≡ suc left
    → AreReady (complete fuel (suc left) dfg sync) ms
unfolding complete
complete_lem fuel zero dfg sync ms chain enough tasks count =
    subst (λ (r : Dfg × ℕ). AreReady r.0 ms) (sym (last_call fuel dfg sync ms chain enough count))
      (released-AreReady (record dfg { wc = update dfg.wc sync 0 }) ms tasks)
complete_lem fuel (suc left) dfg sync ms chain enough tasks count =
    let counted = record dfg { wc = update dfg.wc sync (suc left) } in
    let same : sync == sync ≡ true = ground arith in
    subst (λ (r : Dfg × ℕ). AreReady (complete fuel (suc left) r.0 sync) ms)
      (sym (earlier_call fuel left dfg sync count))
      (complete_lem fuel left counted sync ms chain enough tasks (rw same refl))

-- When all accesses of a group have completed, each with a call of kaapi_sched_activate_syncpoint on the
-- synchronisation point of the group, all accesses of the next group are ready, for two groups that the
-- memory represents one after the other and fuel for the accesses of the second.
pub group_released :
    (dfg : Dfg) (g g' : Group) (fuel : ℕ)
    → IsGroup dfg g
    → IsGroup dfg g'
    → g'.before ≡ g.sync
    → All (λ (m : Member). m.access ≢ 0) (members g')
    → length (members g') ≤ fuel
    → AreReady (complete fuel (length (members g)) dfg g.sync) (members g')
unfolding IsGroup Chain pred All
group_released dfg g g' fuel is is' link nz enough =
    let chain = Linked-Chain dfg.next g'.before (members g') [] is'.0 nz is'.1 in
    let tasks =
      oldest_first-All _ (members g') []
        (All-weaken (Holds dfg g'.sync) _ (λ (m : Member) h. h.2) (members g') is'.2) tt in
    let ready =
      complete_lem fuel (length g.older) dfg g.sync (oldest_first (members g') []) (rw⁻¹ link chain)
        (omega (arith, length-oldest_first (members g') [])) tasks is.3 in
    (oldest_first-All_back _ (members g') [] ready).0
