-- ===== src/Fs/Remount/Moves.antt =====
-- The steps of the remounting of source/fs.c, by what happens: which state follows which.
use ftpii.Base.{
  if◌then◌else◌, ◌⊎◌, inl, inr, ◌<◌, ◌≤◌, Bool-cases, ◌≡◌, refl, arith, ◌+◌, ◌≢◌, ℕ, zero, suc,
  Bool, true, false, not, ◌&&◌, List, [], ◌∷◌, Option, none, some, ltb, ◌==◌,
}
use ftpii.Os.{
  Partition, gcsda, gcsdb, sd, usb, dvd, Button, Call, gettime, Answer, Event, Os, unsigned,
}
use ftpii.World.{
  MountState, World, M, mountstate_start, mountstate_selectdevice, mountstate_waitfordevice,
}
use ftpii.World.Keeps.{After}
use ftpii.World.Apart.{Remount}
use ftpii.Pad.{Buttons}
use ftpii.Fs.Table.{is_dvd}
use ftpii.Fs.Remount.{select}

-- What the main loop lets happen to the remounting, with its fuel and the time.
pub data Happening : Type 0 where
  remount_event : ℕ → Happening
  device_select_event : Buttons → Happening
  mount_timer : ℕ → ℕ → Happening
  removable_devices : ℕ → ℕ → Happening

-- Which partition the buttons choose, by the first of them that is down, where `before` was chosen.
pub data Chooses (pressed : Buttons) (before chosen : Option Partition) : Type 0 where
  left : pressed Button.button_left ≡ true → chosen ≡ some sd → Chooses pressed before chosen
  right :
      pressed Button.button_left ≡ false
      → pressed Button.button_right ≡ true
      → chosen ≡ some usb
      → Chooses pressed before chosen
  up :
      pressed Button.button_left ≡ false
      → pressed Button.button_right ≡ false
      → pressed Button.button_up ≡ true
      → chosen ≡ some gcsda
      → Chooses pressed before chosen
  down :
      pressed Button.button_left ≡ false
      → pressed Button.button_right ≡ false
      → pressed Button.button_up ≡ false
      → pressed Button.button_down ≡ true
      → chosen ≡ some gcsdb
      → Chooses pressed before chosen
  one :
      pressed Button.button_left ≡ false
      → pressed Button.button_right ≡ false
      → pressed Button.button_up ≡ false
      → pressed Button.button_down ≡ false
      → pressed Button.button_1 ≡ true
      → chosen ≡ some dvd
      → Chooses pressed before chosen
  no_button :
      pressed Button.button_left ≡ false
      → pressed Button.button_right ≡ false
      → pressed Button.button_up ≡ false
      → pressed Button.button_down ≡ false
      → pressed Button.button_1 ≡ false
      → chosen ≡ before
      → Chooses pressed before chosen

-- What happens asks for a remount: the button for it, or a timer that was set and has passed.
abbrev pub Asks : Happening → Remount → Type 0
Asks (remount_event fuel) r = Unit
Asks (mount_timer fuel now) r = (r.timer ≢ 0) × (r.timer < now)
Asks (device_select_event pressed) r = ⊥
Asks (removable_devices fuel now) r = ⊥

-- What happens is nothing to the machine.
abbrev pub Rests : Happening → Remount → Type 0
Rests (remount_event fuel) r = ⊥
Rests (mount_timer fuel now) r = (r.timer ≡ 0) ⊎ (now ≤ r.timer)
Rests (device_select_event pressed) r =
    (r.state ≢ mountstate_selectdevice) ⊎ Chooses pressed r.partition none
Rests (removable_devices fuel now) r = Unit

-- The steps of the machine, by what happens; `waiting` is whether the drive is at a disc, and `deadline`
-- the time that a timer is set to.
pub data Move (h : Happening) (waiting : Bool) (deadline : ℕ) (r : Remount) : Remount → Type 0 where
  rest : Rests h r → Move h waiting deadline r r
  begin :
      Asks h r
      → r.state ≢ mountstate_waitfordevice
      → Move h waiting deadline r
          (record { state = mountstate_selectdevice; partition = none; timer = r.timer })
  finish :
      Asks h r
      → r.state ≡ mountstate_waitfordevice
      → Move h waiting deadline r (record { state = mountstate_start; partition = none; timer = 0 })
  refuse :
      (pressed : Buttons) (p : Partition)
      → h ≡ device_select_event pressed
      → r.state ≡ mountstate_selectdevice
      → Chooses pressed r.partition (some p)
      → is_dvd p ≡ true
      → waiting ≡ true
      → Move h waiting deadline r
          (record { state = mountstate_start; partition = some p; timer = r.timer })
  await :
      (pressed : Buttons) (p : Partition)
      → h ≡ device_select_event pressed
      → r.state ≡ mountstate_selectdevice
      → Chooses pressed r.partition (some p)
      → (is_dvd p && waiting) ≡ false
      → Move h waiting deadline r
          (record { state = mountstate_waitfordevice; partition = some p; timer = deadline })

-- Thirty seconds after the time that the last call asked for; 0 where it asked for something else.
abbrev pub deadline_of : ⦃os : Os⦄ → Call → Answer → ℕ
deadline_of ⦃os⦄ gettime a = unsigned a.code + os.secs_to_ticks 30
deadline_of _ a = 0

abbrev pub deadline_after : ⦃os : Os⦄ → List Event → ℕ
deadline_after [] = 0
deadline_after (e ∷ past) = deadline_of e.call e.answer

pub select-Chooses :
    (pressed : Buttons) (before : Option Partition) → Chooses pressed before (select pressed before)
unfolding select
select-Chooses pressed before = elim (Bool-cases (pressed Button.button_left)) [
  | inl a ↦ rw a (left a refl)
  | inr a ↦ elim (Bool-cases (pressed Button.button_right)) [
    | inl b ↦ rw (a, b) (right a b refl)
    | inr b ↦ elim (Bool-cases (pressed Button.button_up)) [
      | inl c ↦ rw (a, b, c) (up a b c refl)
      | inr c ↦ elim (Bool-cases (pressed Button.button_down)) [
        | inl d ↦ rw (a, b, c, d) (down a b c d refl)
        | inr d ↦ elim (Bool-cases (pressed Button.button_1)) [
          | inl e ↦ rw (a, b, c, d, e) (one a b c d e refl)
          | inr e ↦ rw (a, b, c, d, e) (no_button a b c d e refl)
        ]
      ]
    ]
  ]
]

pub time_up :
    (timer now : ℕ) → not (timer == 0) && ltb timer now ≡ true → (timer ≢ 0) × (timer < now)
time_up timer now e = ((λ h. ground arith), ground arith)

pub time_left :
    (timer now : ℕ) → not (timer == 0) && ltb timer now ≡ false → (timer ≡ 0) ⊎ (now ≤ timer)
time_left zero now e = inl refl
time_left (suc timer) now e = inr (ground arith)

-- By the state that is read.
pub by_state :
    {w : World} {Q : Unit {0} → World → Type 0} (m : MountState) (a b c : M (Unit {0}))
    → (m ≡ mountstate_start → After Q (a w))
    → (m ≡ mountstate_selectdevice → After Q (b w))
    → (m ≡ mountstate_waitfordevice → After Q (c w))
    → After Q (
        (elim m as (λ _. M (Unit {0})) [
          | mountstate_start ↦ a
          | mountstate_selectdevice ↦ b
          | mountstate_waitfordevice ↦ c
        ])
          w)
by_state mountstate_start a b c h k l = h refl
by_state mountstate_selectdevice a b c h k l = k refl
by_state mountstate_waitfordevice a b c h k l = l refl

pub and_left : (a b : Bool) → a && b ≡ true → a ≡ true
and_left true b h = refl
and_left false b h = h

pub and_right : (a b : Bool) → a && b ≡ true → b ≡ true
and_right true b h = h
and_right false b h = absurd (cc)

-- The choice is none only where it was.
choose-keeps :
    (b : Bool) (p : Partition) (r q : Option Partition)
    → (r ≡ none → q ≡ none)
    → (if b then some p else r) ≡ none
    → q ≡ none
choose-keeps true p r q k h = absurd (cc)
choose-keeps false p r q k h = k h

pub select-keeps : (pressed : Buttons) (q : Option Partition) → select pressed q ≡ none → q ≡ none
unfolding select
select-keeps pressed q = choose-keeps (pressed Button.button_left) sd _ q (
    choose-keeps (pressed Button.button_right) usb _ q (
      choose-keeps (pressed Button.button_up) gcsda _ q (
        choose-keeps (pressed Button.button_down) gcsdb _ q
          (choose-keeps (pressed Button.button_1) dvd q q (λ h. h)))))
