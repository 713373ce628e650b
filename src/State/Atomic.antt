-- ===== src/State/Atomic.antt =====
-- What Save and Load of internal/state/file_store.go promise together: a Save that is cut off at any
-- step leaves the old state or the new one.
use swarm_sentinel.Base.{
  int_eq, ltb_ℤ, Text, List, [], ◌∷◌, All, All-map, Option, none, some, false, inl, inr, success,
  ◌≡◌, ◌⊎◌, refl, arith,
}
use swarm_sentinel.State.Types.{State, current_state_version}
use swarm_sentinel.State.File.{
  Codec, Disk, Faults, versioned, load, Saving, cleanup, abort, write_and_rename, save,
}

-- The last of the disks, or the one before all of them.
abbrev pub last_disk : Disk → List Disk → Disk
last_disk disk [] = disk
last_disk disk (d ∷ ds) = last_disk d ds

-- After an error the file has been the old one throughout. Otherwise it has been the old one or
-- complete, and at the end it is complete.
abbrev pub IsAtomic : Option Text → Text → Saving → Type 0
IsAtomic old bytes saving = elim saving.error [
  | some e ↦ All (λ d. d.file ≡ old) saving.disks
  | none ↦
      All (λ d. (d.file ≡ old) ⊎ (d.file ≡ some bytes)) saving.disks
      × ((disk : Disk) → (last_disk disk saving.disks).file ≡ some bytes)
]

cleanup-file : (faults : Faults) (disk : Disk) → (cleanup faults disk).file ≡ disk.file
unfolding cleanup
cleanup-file faults disk = ground arith

write_and_rename-IsAtomic :
    (faults : Faults) (bytes : Text) (created : Disk)
    → IsAtomic created.file bytes (write_and_rename faults bytes created)
unfolding write_and_rename abort cleanup
write_and_rename-IsAtomic faults bytes created = ground arith

-- Whatever step of a Save fails: if it returns an error, the state file has been the old one at every
-- step; if it returns none, the file has been the old one or the complete new one at every step, and
-- is the new one at the end.
pub save-IsAtomic :
    (codec : Codec) (faults : Faults) (state : State) (disk : Disk)
    → IsAtomic disk.file (codec.encode (versioned state)) (save codec faults state disk)
unfolding save abort cleanup
save-IsAtomic codec faults state disk = ground (
  arith,
  write_and_rename-IsAtomic faults (codec.encode (versioned state))
      (record disk { temp = some [] }),
)

pub load-same :
    (codec : Codec) (d disk : Disk)
    → d.file ≡ disk.file
    → load codec none none d ≡ load codec none none disk
unfolding load
load-same codec d disk same = rw same refl

load-new :
    (codec : Codec) (d : Disk) (state : State)
    → codec.decode (codec.encode (versioned state)) ≡ some (versioned state)
    → ltb_ℤ current_state_version state.version ≡ false
    → d.file ≡ some (codec.encode (versioned state))
    → load codec none none d ≡ success (versioned state)
unfolding load versioned
load-new codec d state round supported new = ground (arith, round)

IsAtomic-files :
    (old : Option Text) (bytes : Text) (disks : List Disk) (error : Option Text)
    → IsAtomic old bytes (record { disks = disks; error = error })
    → All (λ d. (d.file ≡ old) ⊎ (d.file ≡ some bytes)) disks
IsAtomic-files old bytes disks none h = h.0
IsAtomic-files old bytes disks (some e) h = All-map _ _ disks (λ d same. inl same) h

IsAtomic-last :
    (old : Option Text) (bytes : Text) (disks : List Disk) (error : Option Text) (disk : Disk)
    → IsAtomic old bytes (record { disks = disks; error = error })
    → error ≡ none
    → (last_disk disk disks).file ≡ some bytes
IsAtomic-last old bytes disks none disk h done = h.1 disk
IsAtomic-last old bytes disks (some e) disk h done = cc

-- Where the encoding of the versioned state is decoded to it and the version is not beyond the current
-- one, a process that ends at any step of a Save finds at its next Load what it found before, or the
-- saved state with its version set.
pub save-crash :
    (codec : Codec) (faults : Faults) (state : State) (disk : Disk)
    → codec.decode (codec.encode (versioned state)) ≡ some (versioned state)
    → ltb_ℤ current_state_version state.version ≡ false
    → All
        (λ d.
          (load codec none none d ≡ load codec none none disk)
          ⊎ (load codec none none d ≡ success (versioned state)))
        (save codec faults state disk).disks
save-crash codec faults state disk round supported =
    let saving = save codec faults state disk in
    All-map _ _ saving.disks
      (λ d found. elim found [
        | inl same ↦ inl (load-same codec d disk same)
        | inr new ↦ inr (load-new codec d state round supported new)
      ])
      (IsAtomic-files disk.file (codec.encode (versioned state)) saving.disks saving.error
        (save-IsAtomic codec faults state disk))

-- Where the encoding of the versioned state is decoded to it and the version is not beyond the current
-- one, a Load after a Save that returned no error gives the saved state with its version set.
pub load-save :
    (codec : Codec) (faults : Faults) (state : State) (disk : Disk)
    → codec.decode (codec.encode (versioned state)) ≡ some (versioned state)
    → ltb_ℤ current_state_version state.version ≡ false
    → (save codec faults state disk).error ≡ none
    → load codec none none (last_disk disk (save codec faults state disk).disks)
      ≡ success (versioned state)
load-save codec faults state disk round supported done =
    let saving = save codec faults state disk in
    load-new codec (last_disk disk saving.disks) state round supported (
      IsAtomic-last disk.file (codec.encode (versioned state)) saving.disks saving.error disk
        (save-IsAtomic codec faults state disk) done)
