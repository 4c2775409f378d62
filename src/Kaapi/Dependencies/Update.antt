-- ===== src/Kaapi/Dependencies/Update.antt =====
-- kaapi_update_dependencies as a refinement of the groups of accesses.
use xkblas.Base.{
  ℕ, ◌<◌, ◌≡◌, ◌≢◌, refl, sym, ap, subst, ap₂, ◌∙◌, arith, true, List, [], ◌∷◌, Bool-cases, inl,
  inr, All, Distinct,
}
use xkblas.Kaapi.Dependencies.{
  Dfg, Handle, kaapi_update_dependencies, kaapi_handle_init, kaapi_access_sync_init, init_access,
  link_access, new_sync, swap_sync,
}
use xkblas.Kaapi.Dependencies.Modes.{access_sync, concurrent_with_sync}
use xkblas.Kaapi.Dependencies.Groups.{
  Member, Group, members, joins, first_group, extend, add, build,
}
use xkblas.Kaapi.Dependencies.Links.{
  newest_sync, AreGroups, addresses, inner, owned, Same, All-addresses, IsGroup,
}
use xkblas.Kaapi.Dependencies.Refine.{
  last_of, sync_of, Represents, AreNew, started, started-AreGroups, started-Same, extended,
  extended-AreGroups, extended-Same, apart, join_first, join_newest, start_next, fresh_sync,
}

-- The synchronisation access of the handle is among the addresses.
sync0_owned : (P : ℕ → Type 0) (sync0 : ℕ) (gs : List Group) → All P (owned sync0 gs) → P sync0
unfolding All owned inner newest_sync
sync0_owned P sync0 [] h = h.0
sync0_owned P sync0 (g ∷ gs) h =
    sync0_owned P sync0 gs (All-addresses P (members g) (owned sync0 gs) h.1).1

module _ (dfg : Dfg) (sync0 : ℕ) (gs : List Group) (m : Member) (fresh : ℕ)
    (are : AreGroups dfg sync0 gs) (mode0 : dfg.mode sync0 ≡ access_sync)
    (distinct : Distinct (owned sync0 gs)) (nonzero : All (λ x. x ≢ 0) (owned sync0 gs))
    (new : AreNew m.access fresh (owned sync0 gs)) where
  started-Represents :
      Represents
        (started dfg sync0 gs m fresh are distinct new)
        (record { sync0 = sync0; last = m.access; sync = fresh })
        (first_group (newest_sync sync0 gs) m fresh ∷ gs)
  unfolding Represents last_of sync_of owned inner newest_sync addresses All Distinct AreNew Same
  started-Represents = (
    started-AreGroups dfg sync0 gs m fresh are distinct new nonzero.0,
    refl,
    refl,
    (started-Same dfg sync0 gs m fresh are distinct new sync0 (sync0_owned _ sync0 gs new.3)
          (sync0_owned _ sync0 gs new.4)).1
        ∙ mode0,
    ((new.2, new.4), (new.3, distinct)),
    (new.1, (new.0, nonzero)),
  )

module _ (dfg : Dfg) (sync0 : ℕ) (g : Group) (gs : List Group) (m : Member) (fresh : ℕ)
    (are : AreGroups dfg sync0 (g ∷ gs)) (mode0 : dfg.mode sync0 ≡ access_sync)
    (distinct : Distinct (owned sync0 (g ∷ gs))) (nonzero : All (λ x. x ≢ 0) (owned sync0 (g ∷ gs)))
    (new : AreNew m.access fresh (owned sync0 (g ∷ gs))) where
  extended-Represents :
      Represents
        (extended dfg sync0 g gs m fresh are distinct new)
        (record { sync0 = sync0; last = m.access; sync = g.sync })
        (extend g m ∷ gs)
  unfolding Represents last_of sync_of owned inner newest_sync addresses All Distinct AreNew Same
  extended-Represents = (
    extended-AreGroups dfg sync0 g gs m fresh are distinct new nonzero.1.0,
    refl,
    refl,
    (extended-Same dfg sync0 g gs m fresh are distinct new sync0
          (sync0_owned _ sync0 (g ∷ gs) new.3)
          (sync0_owned _ sync0 gs (apart dfg sync0 g gs m fresh are distinct new).1.1)).1
        ∙ mode0,
    (((λ e. new.3.0 (sym e)), distinct.0), (new.3.1, distinct.1)),
    (nonzero.0, (new.0, nonzero.1)),
  )

abbrev IsRepresented : List Group → Dfg × Handle → Type 0
IsRepresented gs s = Represents s.0 s.1 gs

module _ (dfg : Dfg) (h : Handle) (m : Member) (fresh : ℕ) where
  abbrev linked : Dfg → ℕ → ℕ → Dfg × Handle
  linked s last sync =
      link_access s (record { sync0 = h.sync0; last = last; sync = sync }) m.access m.task

  first_access :
      Represents dfg h []
      → m.mode < 256
      → AreNew m.access fresh (owned h.sync0 [])
      → IsRepresented
          (add h.sync0 [] m fresh)
          (kaapi_update_dependencies dfg m.access m.task m.mode h fresh)
  unfolding Represents last_of sync_of AreGroups owned newest_sync inner AreNew All add started
      link_access
  first_access r small new =
      let joined : joins m.mode (dfg.mode h.last) ≡ true =
        rw (r.1, r.3) (let c = concurrent_with_sync m.mode small in ground arith) in
      let call =
        join_first dfg m.access m.task m.mode h.sync0 h.last h.sync fresh
          (λ e. new.3.0 (sym r.1 ∙ e)) joined r.2 in
      let there =
        ap (λ (l : ℕ). linked (fresh_sync dfg m.access m.task m.mode fresh) l fresh) r.1 in
      subst (IsRepresented (first_group h.sync0 m fresh ∷ [])) (sym (call ∙ there))
        (started-Represents dfg h.sync0 [] m fresh tt r.3 r.4 r.5 new)

  next_access :
      (g : Group) (gs : List Group)
      → Represents dfg h (g ∷ gs)
      → AreNew m.access fresh (owned h.sync0 (g ∷ gs))
      → IsRepresented
          (add h.sync0 (g ∷ gs) m fresh)
          (kaapi_update_dependencies dfg m.access m.task m.mode h fresh)
  unfolding Represents last_of sync_of AreGroups IsGroup owned newest_sync inner addresses AreNew
      All add started extended link_access
  next_access g gs r new =
      let other : h.last ≢ m.access = λ e. new.3.1.0 (sym r.1 ∙ e) in
      let newest : dfg.mode h.last ≡ g.recent.mode = ap dfg.mode r.1 ∙ r.0.0.2.0.1 in
      elim (Bool-cases (joins m.mode g.recent.mode)) [
        | inl j ↦
            let call =
              join_newest dfg m.access m.task m.mode h.sync0 h.last h.sync fresh other (rw newest j)
                (λ e. r.5.0 (sym r.2 ∙ e)) in
            let there = ap₂ (linked (init_access dfg m.access m.task m.mode)) r.1 r.2 in
            rw j (
              subst (IsRepresented (extend g m ∷ gs)) (sym (call ∙ there))
                (extended-Represents dfg h.sync0 g gs m fresh r.0 r.3 r.4 r.5 new))
        | inr n ↦
            let call =
              start_next dfg m.access m.task m.mode h.sync0 h.last h.sync fresh other
                (rw newest n) in
            let there =
              ap (λ (l : ℕ). linked (fresh_sync dfg m.access m.task m.mode fresh) l fresh) r.2 in
            rw n (
              subst (IsRepresented (first_group g.sync m fresh ∷ g ∷ gs)) (sym (call ∙ there))
                (started-Represents dfg h.sync0 (g ∷ gs) m fresh r.0 r.3 r.4 r.5 new))
      ]

-- kaapi_update_dependencies implements the addition of an access to the groups of a data: if the
-- memory and the handle represent the groups, they afterwards represent the groups with the access in the
-- newest one, if its mode allows this, and else in a new one; for a mode of 8 bits and addresses that
-- are not in use.
pub update-refines :
    (dfg : Dfg) (h : Handle) (gs : List Group) (m : Member) (fresh : ℕ)
    → Represents dfg h gs
    → m.mode < 256
    → AreNew m.access fresh (owned h.sync0 gs)
    → Represents
        (kaapi_update_dependencies dfg m.access m.task m.mode h fresh).0
        (kaapi_update_dependencies dfg m.access m.task m.mode h fresh).1
        (add h.sync0 gs m fresh)
update-refines dfg h [] m fresh r small new = first_access dfg h m fresh r small new
update-refines dfg h (g ∷ gs) m fresh r small new = next_access dfg h m fresh g gs r new

-- kaapi_handle_init makes a handle without groups, at an address other than the null pointer.
handle_init-Represents :
    (dfg : Dfg) (sync0 : ℕ)
    → sync0 ≢ 0
    → Represents (kaapi_handle_init dfg sync0).0 (kaapi_handle_init dfg sync0).1 []
unfolding kaapi_handle_init kaapi_access_sync_init Represents AreGroups last_of sync_of owned
    newest_sync inner All Distinct
handle_init-Represents dfg sync0 nz = (tt, refl, refl, ground arith, (tt, tt), (nz, tt))

-- The calls for the accesses to one data, the newest first, on a new handle.
unfoldable pub submit : Dfg → ℕ → List (Member × ℕ) → Dfg × Handle
submit dfg sync0 [] = kaapi_handle_init dfg sync0
submit dfg sync0 (s ∷ submitted) =
    let before = submit dfg sync0 submitted in
    kaapi_update_dependencies before.0 s.0.access s.0.task s.0.mode before.1 s.1

-- Each address is new when it comes into use.
unfoldable pub AreSubmittable : ℕ → List (Member × ℕ) → Type 0
AreSubmittable sync0 [] = sync0 ≢ 0
AreSubmittable sync0 (s ∷ submitted) =
    (s.0.mode < 256)
    × AreNew s.0.access s.1 (owned sync0 (build sync0 submitted))
    × AreSubmittable sync0 submitted

update-sync0 :
    (dfg : Dfg) (a task mode : ℕ) (h : Handle) (fresh : ℕ)
    → (kaapi_update_dependencies dfg a task mode h fresh).1.sync0 ≡ h.sync0
unfolding kaapi_update_dependencies link_access new_sync swap_sync
update-sync0 dfg a task mode h fresh = ground arith

submit-sync0 :
    (dfg : Dfg) (sync0 : ℕ) (submitted : List (Member × ℕ))
    → (submit dfg sync0 submitted).1.sync0 ≡ sync0
unfolding submit kaapi_handle_init
submit-sync0 dfg sync0 [] = refl
submit-sync0 dfg sync0 (s ∷ submitted) =
    let before = submit dfg sync0 submitted in
    update-sync0 before.0 s.0.access s.0.task s.0.mode before.1 s.1
    ∙ submit-sync0 dfg sync0 submitted

-- After kaapi_handle_init and kaapi_update_dependencies for each access to a data, the memory represents the
-- groups of these accesses: their links, their synchronisation points, and the counter of each as the
-- number of accesses that it waits for.
pub submit-refines :
    (dfg : Dfg) (sync0 : ℕ) (submitted : List (Member × ℕ))
    → AreSubmittable sync0 submitted
    → Represents
        (submit dfg sync0 submitted).0
        (submit dfg sync0 submitted).1
        (build sync0 submitted)
unfolding submit build AreSubmittable
submit-refines dfg sync0 [] able = handle_init-Represents dfg sync0 able
submit-refines dfg sync0 (s ∷ submitted) able =
    let before = submit dfg sync0 submitted in
    let same = submit-sync0 dfg sync0 submitted in
    let groups = build sync0 submitted in
    subst
      (λ z.
        IsRepresented (add z groups s.0 s.1)
          (kaapi_update_dependencies before.0 s.0.access s.0.task s.0.mode before.1 s.1))
      same
      (update-refines before.0 before.1 groups s.0 s.1 (submit-refines dfg sync0 submitted able.2)
        able.0 (subst (λ z. AreNew s.0.access s.1 (owned z groups)) (sym same) able.1))
