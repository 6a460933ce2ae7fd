-- ===== src/Machine/Swallow.antt =====
-- The state `conn_swallow` of `drive_machine`: `sbytes` bytes are thrown away, from the buffer and
-- then from the socket.
use doorhinges.Base.{
  ℕ, suc, ◌+◌, ◌-◌, ◌<◌, ◌≤◌, ◌≡◌, refl, ap, ◌∙◌, ◌⊎◌, inl, inr, Bool, true, false, Option, none,
  some, List, [], ◌∷◌, arith, ltb, ◌==◌, if◌then◌else◌, Bool-cases, length,
}
use doorhinges.Input.{Got, bytes, end_of_file, would_block, failed}
use doorhinges.Output.{conn_new_cmd, conn_swallow, conn_closing}
use doorhinges.Reply.{conn_set_state}
use doorhinges.Machine.{
  ev_read, Machine, Calls, state_of, set_state, update_event, swallow_buffered, swallow_read,
  on_swallow, drive_at, drive_machine,
}

-- The bytes that are read are at most those that were asked for.
abbrev pub IsAtMost : ℕ → Got → Type 0
IsAtMost n (bytes bs) = length bs ≤ n
IsAtMost n end_of_file = Unit {0}
IsAtMost n would_block = Unit {0}
IsAtMost n failed = Unit {0}

-- The bytes to throw away, those taken from the buffer and those read have one sum.
abbrev pub swallow_sum : Machine → ℕ
swallow_sum m = m.sbytes + m.input.rcurr + m.input.bytes_read

-- How the swallowing is left: all is thrown away, or the connection is to be closed.
abbrev pub Left : Machine → Type 0
Left m = ((state_of m ≡ conn_new_cmd) × (m.sbytes ≡ 0)) ⊎ (state_of m ≡ conn_closing)

-- A pass: the loop ends, the swallowing is left, or there are fewer bytes to throw away.
abbrev Step : Machine → Option (Machine × Bool) → Type 0
Step m r =
    (m' : Machine) × (swallow_sum m' ≡ swallow_sum m)
    × ((r ≡ some (m', true))
        ⊎ (r ≡ some (m', false))
          × (Left m' ⊎ (state_of m' ≡ conn_swallow) × (m'.sbytes < m.sbytes)))

closes : (m : Machine) → Step m (some (set_state conn_closing m, false))
unfolding set_state conn_set_state state_of
closes m = (set_state conn_closing m, refl, inr (refl, inl (inr refl)))

swallow_buffered_step :
    (m : Machine)
    → state_of m ≡ conn_swallow
    → 0 < m.sbytes
    → 0 < m.input.rbytes
    → Step m (some (swallow_buffered m, false))
unfolding swallow_buffered state_of
swallow_buffered_step m e more buffered =
    (swallow_buffered m, ground arith, inr (refl, inr (e, ground arith)))

swallow_sum-update_event :
    (c : Calls) (m : Machine) → swallow_sum (update_event c ev_read m).0 ≡ swallow_sum m
unfolding update_event
swallow_sum-update_event c m = ground arith

swallow_read_step :
    (c : Calls) (g : Got) (m : Machine)
    → state_of m ≡ conn_swallow
    → IsAtMost m.sbytes g
    → 0 < m.sbytes
    → Step m (swallow_read c g m)
unfolding swallow_read state_of set_state conn_set_state
swallow_read_step c (bytes []) m e few more = closes m
swallow_read_step c (bytes (b ∷ bs)) m e few more =
    (_, sum m.sbytes m.input.rcurr m.input.bytes_read few, inr (refl, inr (e, omega (arith, more))))
  where
    sum :
        (s r n : ℕ)
        → suc (length bs) ≤ s
        → s - suc (length bs) + r + (n + suc (length bs)) ≡ s + r + n
    sum s r n few = omega arith
swallow_read_step c end_of_file m e few more = closes m
swallow_read_step c would_block m e few more = elim (Bool-cases ((update_event c ev_read m).1)) [
  | inl done ↦ rw done ((update_event c ev_read m).0, swallow_sum-update_event c m, inl refl)
  | inr not_done ↦ rw not_done (
    set_state conn_closing (update_event c ev_read m).0,
    swallow_sum-update_event c m,
    inr (refl, inl (inr refl)),
  )
]
swallow_read_step c failed m e few more = closes m

-- Each answer is at most what was asked for.
abbrev pub AreAtMost : List Calls → Type 0
AreAtMost [] = Unit {0}
AreAtMost (c ∷ cs) = ((n : ℕ) → IsAtMost n (c.thrown n)) × AreAtMost cs

IsAtMost-trans : (k n : ℕ) (g : Got) → k ≤ n → IsAtMost k g → IsAtMost n g
IsAtMost-trans k n (bytes bs) le few = omega (arith, le, few)
IsAtMost-trans k n end_of_file le few = tt
IsAtMost-trans k n would_block le few = tt
IsAtMost-trans k n failed le few = tt

on_swallow_step :
    (c : Calls) (m : Machine)
    → state_of m ≡ conn_swallow
    → ((n : ℕ) → IsAtMost n (c.thrown n))
    → Step m (on_swallow c m)
unfolding on_swallow set_state conn_set_state state_of
on_swallow_step c m e few = elim (Bool-cases (m.sbytes == 0)) [
  | inl all ↦ rw all (set_state conn_new_cmd m, refl, inr (refl, inl (inl (refl, ground arith))))
  | inr some_left ↦ elim (Bool-cases (ltb 0 m.input.rbytes)) [
    | inl buffered ↦
        rw (some_left, buffered) (swallow_buffered_step m e (ground arith) (ground arith))
    | inr empty ↦
        rw (some_left, empty)
          (let room = if ltb m.sbytes m.input.rsize then m.sbytes else m.input.rsize in
            swallow_read_step c (c.thrown room) m e
              (IsAtMost-trans room m.sbytes (c.thrown room) (ground arith) (few room))
              (ground arith))
  ]
]

module _ (process_command : List ℕ → Machine → Machine) (n fuel : ℕ) where
  abbrev drive : List Calls → Machine → Option (Machine × Bool)
  drive cs m = drive_machine process_command n fuel cs m

  -- The loop behind a pass.
  abbrev after : List Calls → Option (Machine × Bool) → Option (Machine × Bool)
  after cs none = none
  after cs (some (m, true)) = some (m, true)
  after cs (some (m, false)) = drive cs m

  drive-swallow :
      (c : Calls) (cs : List Calls) (m : Machine)
      → state_of m ≡ conn_swallow
      → drive (c ∷ cs) m ≡ after cs (on_swallow c m)
  unfolding drive_machine drive_at
  drive-swallow c cs m e =
      same (drive_at process_command n fuel (state_of m) c m)
      ∙ ap (λ s. after cs (drive_at process_command n fuel s c m)) e
    where
      same :
          (r : Option (Machine × Bool))
          → elim r [
            | none ↦ none
            | some (m', true) ↦ some (m', true)
            | some (m', false) ↦ drive_machine process_command n fuel cs m'
          ]
            ≡ after cs r
      same none = refl
      same (some (m', true)) = refl
      same (some (m', false)) = refl

  -- The state `conn_swallow`, where each pass reads at most what it asks for and there are more passes
  -- than bytes to throw away: the loop ends, or it goes on in `conn_new_cmd` with
  -- nothing left to throw away, or in `conn_closing`. The bytes taken from the buffer and those read
  -- are together as many as `sbytes` has gone down by.
  pub drive_machine_swallows :
      (cs : List Calls) (m : Machine)
      → state_of m ≡ conn_swallow
      → AreAtMost cs
      → m.sbytes < length cs
      → (m' : Machine) × (cs' : List Calls) × (swallow_sum m' ≡ swallow_sum m)
        × ((drive_machine process_command n fuel cs m ≡ some (m', true))
            ⊎ (drive_machine process_command n fuel cs m
                ≡ drive_machine process_command n fuel cs' m')
              × Left m')
  drive_machine_swallows [] m e few more = absurd (omega (arith, more))
  drive_machine_swallows (c ∷ cs) m e (honest, few) more =
      let (m', sum, s) = on_swallow_step c m e honest in
      let passed = drive-swallow c cs m e in
      elim s [
        | inl ends ↦ (m', cs, sum, inl (passed ∙ ap (after cs) ends))
        | inr (goes_on, inl left) ↦ (m', cs, sum, inr (passed ∙ ap (after cs) goes_on, left))
        | inr (goes_on, inr (e', less)) ↦
            let (last, cs', sum', ends) =
              drive_machine_swallows cs m' e' few (omega (arith, less, more)) in
            let on = passed ∙ ap (after cs) goes_on in
            (
              last,
              cs',
              sum' ∙ sum,
              elim ends [
                | inl waits ↦ inl (on ∙ waits)
                | inr (leaves, left) ↦ inr (on ∙ leaves, left)
              ],
            )
      ]
