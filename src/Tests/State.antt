-- ===== src/Tests/State.antt =====
-- Saves with and without faults.
use swarm_sentinel.Base.{
  pos, int_eq, text_eq, text, List, map, [], ◌∷◌, All, none, some, false, success, ◌==◌, ◌≡◌, ◌⊎◌,
  refl, if◌then◌else◌,
}
use swarm_sentinel.State.Types.{State}
use swarm_sentinel.State.File.{
  Codec, Disk, Faults, fresh, versioned, load, cleanup, abort, write_and_rename, save,
}
use swarm_sentinel.State.Atomic.{IsAtomic, last_disk, save-IsAtomic, save-crash, load-save}
use swarm_sentinel.State.Cell.{
  SaveCall, first_fault, cell_after, disk_after, errors_of, load-disk_after,
}

abbrev app_state : State
app_state = record {
  version = pos 0;
  stacks =
      (text "app", record { desired_fingerprint = text "f0"; services = []; evaluated_at = 5 })
      ∷ [];
}

-- A codec that knows this one state.
abbrev codec : Codec
codec = record {
  encode = λ s. text "{app}";
  decode =
      λ bytes. if bytes == text "{app}" then some (record app_state { version = pos 1 }) else none;
}

abbrev no_faults : Faults
no_faults = record {
  context_error = none;
  mkdir_error = none;
  create_error = none;
  chmod_error = none;
  write_error = none;
  sync_error = none;
  close_error = none;
  rename_error = none;
  remove_fails = false;
}

abbrev disk_full : Faults
disk_full = record no_faults { write_error = some (2, text "no space left on device") }

abbrev old_disk : Disk
old_disk = record { file = some (text "{old"); temp = none }

unfoldable pub store_program : Unit {0}
unfolding int_eq text_eq versioned load cleanup abort write_and_rename save
store_program = tt

-- A corrupt file counts as none; a failed write leaves the old one.
corrupt_is_fresh : load codec none none old_disk ≡ success fresh
unfolding store_program
corrupt_is_fresh = refl

full_disk_leaves_old : last_disk old_disk (save codec disk_full app_state old_disk).disks ≡ old_disk
unfolding store_program
full_disk_leaves_old = refl

save-IsAtomic_example :
    IsAtomic
      (some (text "{old"))
      (codec.encode (versioned app_state))
      (save codec disk_full app_state old_disk)
save-IsAtomic_example = save-IsAtomic codec disk_full app_state old_disk

app_state-decoded : codec.decode (codec.encode (versioned app_state)) ≡ some (versioned app_state)
unfolding store_program
app_state-decoded = refl

app_state-saved : (save codec no_faults app_state old_disk).error ≡ none
unfolding store_program
app_state-saved = refl

save-crash_example :
    All
      (λ d.
        (load codec none none d ≡ load codec none none old_disk)
        ⊎ (load codec none none d ≡ success (versioned app_state)))
      (save codec no_faults app_state old_disk).disks
save-crash_example = save-crash codec no_faults app_state old_disk app_state-decoded refl

load-save_example :
    load codec none none (last_disk old_disk (save codec no_faults app_state old_disk).disks)
    ≡ success (versioned app_state)
load-save_example =
    load-save codec no_faults app_state old_disk app_state-decoded refl app_state-saved

-- A call that fails, and one that does not.
abbrev two_calls : List SaveCall
two_calls =
    record { faults = disk_full; state = app_state }
    ∷ record { faults = no_faults; state = app_state }
    ∷ []

load-disk_after_example :
    (load codec none none (disk_after codec two_calls old_disk)
      ≡ success (cell_after two_calls fresh))
    × (errors_of codec two_calls old_disk ≡ map (λ c. first_fault c.faults) two_calls)
load-disk_after_example =
    load-disk_after codec two_calls old_disk fresh
      ((app_state-decoded, refl), ((app_state-decoded, refl), tt)) corrupt_is_fresh
