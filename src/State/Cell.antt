-- ===== src/State/Cell.antt =====
-- FileStore of internal/state/file_store.go as a cell that holds one state.
use mathlib.Core.Option
use swarm_sentinel.Base.{
  int_eq, ltb_ℤ, Text, List, [], ◌∷◌, All, Option, none, some, Option-cases, false, inl, inr,
  success, ◌≡◌, ◌∙◌, ap₂, map, refl, arith,
}
use swarm_sentinel.State.Types.{State, current_state_version}
use swarm_sentinel.State.File.{Codec, Disk, Faults, versioned, load, save, write_and_rename, abort}
use swarm_sentinel.State.Atomic.{last_disk, IsAtomic, save-IsAtomic, load-same, load-save}

-- A call of Save.
pub record SaveCall : Type 0 where
  pub faults : Faults
  pub state : State

-- What a cell does: a call with a fault returns the first one and changes nothing, another one puts in
-- the state, with its version set.
abbrev or_else : Option Text → Option Text → Option Text
or_else none o = o
or_else (some e) o = some e

abbrev pub first_fault : Faults → Option Text
first_fault f = or_else f.context_error (
    or_else f.mkdir_error (
      or_else f.create_error (
        or_else f.chmod_error (
          or_else (Option.map (λ p. p.1) f.write_error)
            (or_else f.sync_error (or_else f.close_error f.rename_error))))))

abbrev pub cell_after : List SaveCall → State → State
cell_after [] cell = cell
cell_after (c ∷ cs) cell =
    cell_after cs (elim (first_fault c.faults) [ none ↦ versioned c.state | some e ↦ cell ])

-- What the store does: each call goes on with the disk that the one before left.
abbrev pub disk_after : Codec → List SaveCall → Disk → Disk
disk_after codec [] disk = disk
disk_after codec (c ∷ cs) disk =
    disk_after codec cs (last_disk disk (save codec c.faults c.state disk).disks)

abbrev pub errors_of : Codec → List SaveCall → Disk → List (Option Text)
errors_of codec [] disk = []
errors_of codec (c ∷ cs) disk =
    let saving = save codec c.faults c.state disk in
    saving.error ∷ errors_of codec cs (last_disk disk saving.disks)

-- The encoding of the state is decoded to it, and its version is not beyond the current one.
abbrev pub IsStorable : Codec → State → Type 0
IsStorable codec state =
    (codec.decode (codec.encode (versioned state)) ≡ some (versioned state))
    × (ltb_ℤ current_state_version state.version ≡ false)

save-error :
    (codec : Codec) (faults : Faults) (state : State) (disk : Disk)
    → (save codec faults state disk).error ≡ first_fault faults
unfolding save write_and_rename abort
save-error codec faults state disk = ground arith

last_disk-All :
    (P : Disk → Type 0) (disks : List Disk) (disk : Disk)
    → P disk
    → All P disks
    → P (last_disk disk disks)
last_disk-All P [] disk here h = here
last_disk-All P (d ∷ disks) disk here h = last_disk-All P disks d h.0 h.1

IsAtomic-failed :
    (old : Option Text) (bytes : Text) (disks : List Disk) (error : Option Text) (e : Text)
    → IsAtomic old bytes (record { disks = disks; error = error })
    → error ≡ some e
    → All (λ d. d.file ≡ old) disks
IsAtomic-failed old bytes disks none e h failed = cc
IsAtomic-failed old bytes disks (some _) e h failed = h

save-failed :
    (codec : Codec) (faults : Faults) (state : State) (disk : Disk) (e : Text)
    → (save codec faults state disk).error ≡ some e
    → load codec none none (last_disk disk (save codec faults state disk).disks)
      ≡ load codec none none disk
save-failed codec faults state disk e failed =
    let saving = save codec faults state disk in
    load-same codec (last_disk disk saving.disks) disk (
      last_disk-All (λ d. d.file ≡ disk.file) saving.disks disk refl
        (IsAtomic-failed disk.file (codec.encode (versioned state)) saving.disks saving.error e
          (save-IsAtomic codec faults state disk) failed))

-- However often Save is called and whatever fails in each call, the store does what a cell does: each
-- call returns the first fault that it meets, and a Load at the end gives the last state whose call
-- met none, with its version set, or else what a Load gave before them all. The states are decoded
-- from their encodings and have no version beyond the current one; the Loads meet no error of reading.
pub load-disk_after :
    (codec : Codec) (calls : List SaveCall) (disk : Disk) (cell : State)
    → All (λ c. IsStorable codec c.state) calls
    → load codec none none disk ≡ success cell
    → (load codec none none (disk_after codec calls disk) ≡ success (cell_after calls cell))
      × (errors_of codec calls disk ≡ map (λ c. first_fault c.faults) calls)
load-disk_after codec [] disk cell storable h = (h, refl)
load-disk_after codec (c ∷ calls) disk cell ((round, supported), storable) h =
    let error = save-error codec c.faults c.state disk in
    let next = last_disk disk (save codec c.faults c.state disk).disks in
    elim (Option-cases (first_fault c.faults)) [
      | inl fine ↦
          let saved = load-save codec c.faults c.state disk round supported (error ∙ fine) in
          let rest = load-disk_after codec calls next (versioned c.state) storable saved in
          (rw (fine) rest.0, ap₂ (λ o os. o ∷ os) error rest.1)
      | inr (e, failed) ↦
          let kept = save-failed codec c.faults c.state disk e (error ∙ failed) ∙ h in
          let rest = load-disk_after codec calls next cell storable kept in
          (rw (failed) rest.0, ap₂ (λ o os. o ∷ os) error rest.1)
    ]
