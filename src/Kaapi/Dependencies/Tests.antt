-- ===== src/Kaapi/Dependencies/Tests.antt =====
-- Two tasks that read a data, and one that writes it.
use xkblas.Base.{◌⊎◌, ◌<◌, ◌≤◌, ℕ, ◌≡◌, ◌≢◌, refl, arith, false, List, [], ◌∷◌, All, update}
use xkblas.Kaapi.Dependencies.{
  Dfg, Handle, kaapi_handle_init, kaapi_update_dependencies, kaapi_sched_activate_syncpoint,
  kaapi_access_sync_init, new_sync, swap_sync, link_access, init_access,
}
use xkblas.Kaapi.Dependencies.Modes.{access_is_concurrent}
use xkblas.Kaapi.Dependencies.Groups.{
  Member, Group, members, add, build, flatten, accesses_of, IsPlain, IsHomogeneous, groups_ordered,
}
use xkblas.Kaapi.Dependencies.Links.{owned, inner, addresses, newest_sync, IsGroup, AreGroups}
use xkblas.Kaapi.Dependencies.Refine.{Represents, AreNew}
use xkblas.Kaapi.Dependencies.Update.{update-refines, submit-refines, submit, AreSubmittable}
use xkblas.Kaapi.Dependencies.Complete.{AreReady, complete, group_released}
use xkblas.Kaapi.Dependencies.Activate.{accesses_by, Released, last_completion_releases}

abbrev blank : Dfg
blank = record {
  mode = λ a. 0;
  ready = λ a. false;
  next = λ a. 0;
  sync = λ a. 0;
  task = λ a. 0;
  wc = λ a. 0;
  task_wc = λ t. 1;
  pushed = [];
}

abbrev reads : ℕ → ℕ → Member
reads a t = record { access = a; task = t; mode = 2 }

abbrev writes : ℕ → ℕ → Member
writes a t = record { access = a; task = t; mode = 4 }

abbrev two_reads : List (Member × ℕ)
two_reads = (reads 21 2, 31) ∷ (reads 20 1, 30) ∷ []

two_reads-AreSubmittable : AreSubmittable 10 two_reads
unfolding AreSubmittable AreNew All owned inner addresses newest_sync build add access_is_concurrent
two_reads-AreSubmittable = (
  omega arith,
  (
    omega arith,
    omega arith,
    omega arith,
    (omega arith, (omega arith, (omega arith, tt))),
    (omega arith, (omega arith, (omega arith, tt))),
  ),
  (
    omega arith,
    (omega arith, omega arith, omega arith, (omega arith, tt), (omega arith, tt)),
    omega arith,
  ),
)

unfoldable after_reads : Dfg × Handle
after_reads = submit blank 10 two_reads

abbrev reading : Group
reading = record { before = 10; recent = reads 21 2; older = reads 20 1 ∷ []; sync = 30 }

after_reads-Represents : Represents after_reads.0 after_reads.1 (reading ∷ [])
unfolding after_reads build add access_is_concurrent
after_reads-Represents = submit-refines blank 10 two_reads two_reads-AreSubmittable

two_reads-IsPlain : All IsPlain (accesses_of two_reads)
unfolding All IsPlain accesses_of
two_reads-IsPlain = ((omega arith, omega arith), ((omega arith, omega arith), tt))

-- Of the write and the newest version, the addresses are new.
write-AreNew : AreNew 22 32 (owned after_reads.1.sync0 (reading ∷ []))
unfolding AreNew All owned inner addresses newest_sync after_reads submit kaapi_update_dependencies
    kaapi_handle_init new_sync swap_sync link_access init_access kaapi_access_sync_init
    access_is_concurrent
write-AreNew = (
  omega arith,
  omega arith,
  omega arith,
  (omega arith, (omega arith, (omega arith, (omega arith, tt)))),
  (omega arith, (omega arith, (omega arith, (omega arith, tt)))),
)

reading-IsGroup : IsGroup after_reads.0 reading
unfolding Represents AreGroups
reading-IsGroup = after_reads-Represents.0.0

reading_addresses : All (λ (m : Member). m.access ≢ 0) (members reading)
unfolding All
reading_addresses = (omega arith, (omega arith, tt))

one_left : after_reads.0.wc 10 ≡ 1
unfolding after_reads submit kaapi_update_dependencies kaapi_handle_init new_sync swap_sync
    link_access init_access kaapi_access_sync_init access_is_concurrent
one_left = refl

first_task : All (λ (m : Member). after_reads.0.task m.access ≡ m.task) (reads 20 1 ∷ [])
unfolding All after_reads submit kaapi_update_dependencies kaapi_handle_init new_sync swap_sync
    link_access init_access kaapi_access_sync_init access_is_concurrent
first_task = (refl, tt)

groups_ordered_example :
    (flatten (build 10 two_reads) ≡ accesses_of two_reads) × All IsHomogeneous (build 10 two_reads)
groups_ordered_example = groups_ordered 10 two_reads two_reads-IsPlain

submit-refines_example :
    Represents (submit blank 10 two_reads).0 (submit blank 10 two_reads).1 (build 10 two_reads)
submit-refines_example = submit-refines blank 10 two_reads two_reads-AreSubmittable

each_waits : (t : ℕ) → accesses_by t (members reading) ≤ after_reads.0.task_wc t
unfolding accesses_by after_reads submit kaapi_update_dependencies kaapi_handle_init new_sync
    swap_sync link_access init_access kaapi_access_sync_init access_is_concurrent
each_waits t = ground arith

last_completion_releases_example :
    ((0 < 0)
      × (kaapi_sched_activate_syncpoint 2 after_reads.0 10
          ≡ (record after_reads.0 { wc = update after_reads.0.wc 10 0 }, 0)))
    ⊎ ((◌≡◌ {A = ℕ} 0 0)
        × Released
            (record after_reads.0 { wc = update after_reads.0.wc 10 0 })
            (members reading)
            (kaapi_sched_activate_syncpoint 2 after_reads.0 10))
last_completion_releases_example =
    last_completion_releases after_reads.0 reading 2 0 reading-IsGroup reading_addresses
      (omega arith) each_waits one_left

unfoldable after_write : Dfg × Handle
after_write = kaapi_update_dependencies after_reads.0 22 3 4 after_reads.1 32

abbrev writing : Group
writing = record { before = 30; recent = writes 22 3; older = []; sync = 32 }

after_write-Represents : Represents after_write.0 after_write.1 (writing ∷ reading ∷ [])
unfolding after_write add access_is_concurrent
after_write-Represents =
    update-refines after_reads.0 after_reads.1 (reading ∷ []) (writes 22 3) 32
      after_reads-Represents (omega arith) write-AreNew

kept-IsGroup : IsGroup after_write.0 reading
unfolding Represents AreGroups
kept-IsGroup = after_write-Represents.0.2.0

writing-IsGroup : IsGroup after_write.0 writing
unfolding Represents AreGroups
writing-IsGroup = after_write-Represents.0.0

writing_addresses : All (λ (m : Member). m.access ≢ 0) (members writing)
unfolding All
writing_addresses = (omega arith, tt)

group_released_example : AreReady (complete 1 2 after_write.0 30) (members writing)
group_released_example =
    group_released after_write.0 reading writing 1 kept-IsGroup writing-IsGroup refl
      writing_addresses (omega arith)
