-- ===== src/SnoopCache/Polling/Laws.antt =====
-- The queue of the polling thread empties, and its timeout stays one that `get` accepts.
use opx_nas_linux.Prelude.{
  ℕ, suc, ◌+◌, ◌-◌, ◌≤◌, ◌<◌, String, Option, List, [], ◌∷◌, ◌++◌, ◌≡◌, refl, arith, length, leb,
  All, lt_of_leb, ap, Bool-cases, inl, inr,
}
use opx_nas_linux.Snoop.{Shell}
use opx_nas_linux.SnoopCache.{Routes}
use opx_nas_linux.SnoopCache.Polling.{
  Task, Loop, Clock, max_try_count, polling_interval, hashmax_cfg_to_queue, wait, poll, serve,
  take_task, pass, run,
}

-- The tries that are left to the tasks of a queue.
unfoldable pub tries_left : List Task → ℕ
tries_left [] = 0
tries_left (task ∷ q) = (max_try_count - task.try_count) + tries_left q

abbrev pub IsTried : Task → Type 0
IsTried task = task.try_count < max_try_count

tries_left-append : (q r : List Task) → tries_left (q ++ r) ≡ tries_left q + tries_left r
unfolding tries_left
tries_left-append [] r = omega arith
tries_left-append (task ∷ q) r = omega (arith, tries_left-append q r)

tries_left-empty : (q : List Task) → All IsTried q → tries_left q ≤ 0 → q ≡ []
unfolding tries_left
tries_left-empty [] h none_left = refl
tries_left-empty (task ∷ q) (t, h) none_left = absurd (omega (arith, t, none_left))

pub All-append :
    (q : List Task) (task : Task) → All IsTried q → IsTried task → All IsTried (q ++ (task ∷ []))
All-append [] task h t = (t, tt)
All-append (x ∷ q) task (h0, h) t = (h0, All-append q task h t)

wait-hashmax_cfg_q : (c : Clock) (s : Loop) → (wait c s).hashmax_cfg_q ≡ s.hashmax_cfg_q
unfolding wait
wait-hashmax_cfg_q c s = ground arith

unfoldable pub HasTimeout : Loop → Type 0
HasTimeout s = (0 < s.polling_timeout) × (s.polling_timeout ≤ polling_interval)

wait-HasTimeout : (c : Clock) (s : Loop) → HasTimeout s → HasTimeout (wait c s)
unfolding wait HasTimeout
wait-HasTimeout c s h = ground (arith, h)

module _ (sh : Shell) where
  open sh use {State}

  serve-tries :
      (task : Task) (s : Loop) (st : State)
      → IsTried task
      → All IsTried s.hashmax_cfg_q
      → let q = (serve sh task s st).0.hashmax_cfg_q in
        All IsTried q
        × (tries_left q + 1 ≤ (max_try_count - task.try_count) + tries_left s.hashmax_cfg_q)
  unfolding serve hashmax_cfg_to_queue tries_left
  serve-tries task s st t h =
      let again : Task = record {
        br_name = task.br_name;
        max_grps = task.max_grps;
        try_count = suc task.try_count;
      } in
      elim (Bool-cases (leb max_try_count (suc task.try_count))) [
        | inl last ↦ ground (arith, t, h, last)
        | inr more ↦
            let below : IsTried again = lt_of_leb max_try_count (suc task.try_count) more in
            ground (
              arith,
              t,
              h,
              more,
              below,
              All-append s.hashmax_cfg_q again h below,
              tries_left-append s.hashmax_cfg_q (again ∷ []),
            )
      ]

  serve-polling_timeout :
      (task : Task) (s : Loop) (st : State)
      → (serve sh task s st).0.polling_timeout ≡ s.polling_timeout
  unfolding serve hashmax_cfg_to_queue
  serve-polling_timeout task s st = ground arith

  take_task-tries :
      (c : Clock) (task : Task) (q : List Task) (s : Loop) (st : State)
      → All IsTried (task ∷ q)
      → let q1 = (take_task sh c (task ∷ q) s st).0.hashmax_cfg_q in
        All IsTried q1 × (tries_left q1 + 1 ≤ tries_left (task ∷ q))
  unfolding take_task tries_left
  take_task-tries c task q s st (t, h) =
      let left = wait-hashmax_cfg_q c (record s { hashmax_cfg_q = q }) in
      let waited = wait c (record s { hashmax_cfg_q = q }) in
      let served = serve-tries task waited st t (rw left h) in
      (served.0, omega (arith, served.1, ap tries_left left))

  take_task-tries_left :
      (c : Clock) (q : List Task) (s : Loop) (st : State)
      → s.hashmax_cfg_q ≡ q
      → All IsTried q
      → let q1 = (take_task sh c q s st).0.hashmax_cfg_q in
        All IsTried q1 × (tries_left q1 ≤ tries_left q - 1)
  unfolding take_task tries_left
  take_task-tries_left c [] s st at h = (rw at tt, omega (arith, ap tries_left at))
  take_task-tries_left c (task ∷ q) s st at h =
      let taken = take_task-tries c task q s st h in (taken.0, omega (arith, taken.1))

  take_task-HasTimeout :
      (c : Clock) (q : List Task) (s : Loop) (st : State)
      → HasTimeout s
      → HasTimeout (take_task sh c q s st).0
  unfolding take_task HasTimeout
  take_task-HasTimeout c [] s st h = ground arith
  take_task-HasTimeout c (task ∷ q) s st h =
      let waited = wait c (record s { hashmax_cfg_q = q }) in
      omega (
        arith,
        serve-polling_timeout task waited st,
        wait-HasTimeout c (record s { hashmax_cfg_q = q }) h,
      )

module _ (sh : Shell) (vlan_info : String → Option ℕ)
    (get_igmp_snooping_route : sh.State → Option Routes × sh.State) where
  open sh use {State}

  -- Polling leaves the queue and the timeout as they are.
  poll-hashmax_cfg_q :
      (s : Loop) (st : State)
      → let s1 = (poll sh vlan_info get_igmp_snooping_route s st).0 in
        (s1.hashmax_cfg_q ≡ s.hashmax_cfg_q) × (s1.polling_timeout ≡ s.polling_timeout)
  unfolding poll
  poll-hashmax_cfg_q s st = ground arith

  pass-tries :
      (c : Clock) (s : Loop) (st : State)
      → All IsTried s.hashmax_cfg_q
      → let q = (pass sh vlan_info get_igmp_snooping_route c s st).0.hashmax_cfg_q in
        All IsTried q × (tries_left q ≤ tries_left s.hashmax_cfg_q - 1)
  unfolding pass
  pass-tries c s st h =
      let polled = poll sh vlan_info get_igmp_snooping_route s st in
      let same = (poll-hashmax_cfg_q s st).0 in
      let taken =
        take_task-tries_left sh c polled.0.hashmax_cfg_q polled.0 polled.1 refl (rw same h) in
      (taken.0, omega (arith, taken.1, ap tries_left same))

  pass-HasTimeout :
      (c : Clock) (s : Loop) (st : State)
      → HasTimeout s
      → HasTimeout (pass sh vlan_info get_igmp_snooping_route c s st).0
  unfolding pass HasTimeout
  pass-HasTimeout c s st h =
      let polled = poll sh vlan_info get_igmp_snooping_route s st in
      let same = (poll-hashmax_cfg_q s st).1 in
      take_task-HasTimeout sh c polled.0.hashmax_cfg_q polled.0 polled.1
        (omega (arith, h, same), omega (arith, h, same))

  -- From a timeout that is positive and at most the interval, `run` keeps it so whatever the clock
  -- does, also when it is set back: `get` is never given a timeout that is not positive.
  pub run-HasTimeout :
      (clocks : List Clock) (s : Loop) (st : State)
      → HasTimeout s
      → HasTimeout (run sh vlan_info get_igmp_snooping_route clocks s st).0
  unfolding run
  run-HasTimeout [] s st h = h
  run-HasTimeout (c ∷ clocks) s st h =
      let next = pass sh vlan_info get_igmp_snooping_route c s st in
      run-HasTimeout clocks next.0 next.1 (pass-HasTimeout c s st h)

  -- Once nothing is added to a queue whose tasks have been tried less than 50 times, it is empty after
  -- as many passes of the loop as tries are left, whether the writes succeed or fail.
  pub run-hashmax_cfg_q :
      (clocks : List Clock) (s : Loop) (st : State)
      → All IsTried s.hashmax_cfg_q
      → tries_left s.hashmax_cfg_q ≤ length clocks
      → (run sh vlan_info get_igmp_snooping_route clocks s st).0.hashmax_cfg_q ≡ []
  unfolding run
  run-hashmax_cfg_q [] s st h enough = tries_left-empty s.hashmax_cfg_q h enough
  run-hashmax_cfg_q (c ∷ clocks) s st h enough =
      let next = pass sh vlan_info get_igmp_snooping_route c s st in
      let kept = pass-tries c s st h in
      run-hashmax_cfg_q clocks next.0 next.1 kept.0 (omega (arith, kept.1, enough))
