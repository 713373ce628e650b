-- ===== src/State/File.antt =====
-- The state on disk: FileStore of internal/state/file_store.go. The JSON encoding is a parameter, and
-- so are the errors of the file system. A nil map of stacks is the empty one.
use swarm_sentinel.Base.{
  ℕ, take, pos, int_eq, ltb_ℤ, Text, List, [], ◌∷◌, ◌++◌, Option, none, some, Bool, Result, success,
  failure, ◌==◌, if◌then◌else◌,
}
use swarm_sentinel.State.Types.{State, current_state_version}

-- encoding/json on State; `encode` gives what the encoder writes, its line break included.
pub record Codec : Type 0 where
  pub encode : State → Text
  pub decode : Text → Option State

-- The state file and the temporary file, where they exist.
pub record Disk : Type 0 where
  pub file : Option Text
  pub temp : Option Text

-- The steps of a Save that fail, and whether the temporary file cannot be removed. A failed write
-- has put down the first bytes.
pub record Faults : Type 0 where
  pub context_error : Option Text
  pub mkdir_error : Option Text
  pub create_error : Option Text
  pub chmod_error : Option Text
  pub write_error : Option (ℕ × Text)
  pub sync_error : Option Text
  pub close_error : Option Text
  pub rename_error : Option Text
  pub remove_fails : Bool

-- `State{Version: CurrentStateVersion, Stacks: map[string]StackSnapshot{}}`
abbrev pub fresh : State
fresh = record { version = current_state_version; stacks = [] }

-- The version is set where it is 0.
unfoldable pub versioned : State → State
versioned state =
    if state.version == pos 0 then record state { version = current_state_version } else state

-- Load, with the error of the context and that of reading a file that is there.
unfoldable pub load : Codec → Option Text → Option Text → Disk → Result Text State
load codec context_error read_error disk = elim context_error [
  | some e ↦ failure e
  | none ↦ elim disk.file [
    | none ↦ success fresh
    | some bytes ↦ elim read_error [
      | some e ↦ failure e
      | none ↦ elim (codec.decode bytes) [
        | none ↦ success fresh
        | some state ↦
            let current = versioned state in
            if ltb_ℤ current_state_version current.version then success fresh else success current
      ]
    ]
  ]
]

-- The disks that a Save passes through, the last one being that at its end, and its error.
pub record Saving : Type 0 where
  pub disks : List Disk
  pub error : Option Text

-- `cleanup()`, whose error is dropped.
unfoldable pub cleanup : Faults → Disk → Disk
cleanup faults disk = if faults.remove_fails then disk else record disk { temp = none }

-- The temporary file is removed and the error returned.
unfoldable pub abort : Faults → List Disk → Disk → Text → Saving
abort faults passed disk e = record {
  disks = passed ++ (disk ∷ cleanup faults disk ∷ []);
  error = some e;
}

-- Save from the write of the temporary file on.
unfoldable pub write_and_rename : Faults → Text → Disk → Saving
write_and_rename faults bytes created =
    let written = record created { temp = some bytes } in
    elim faults.write_error [
      | some (n, e) ↦ abort faults (created ∷ []) (record created { temp = some (take n bytes) }) e
      | none ↦ elim faults.sync_error [
        | some e ↦ abort faults (created ∷ []) written e
        | none ↦ elim faults.close_error [
          | some e ↦ abort faults (created ∷ []) written e
          | none ↦ elim faults.rename_error [
            | some e ↦ abort faults (created ∷ []) written e
            | none ↦ record {
              disks = created ∷ written ∷ record { file = some bytes; temp = none } ∷ [];
              error = none;
            }
          ]
        ]
      ]
    ]

-- Save
unfoldable pub save : Codec → Faults → State → Disk → Saving
save codec faults state disk =
    let created = record disk { temp = some [] } in
    elim faults.context_error [
      | some e ↦ record { disks = disk ∷ []; error = some e }
      | none ↦ elim faults.mkdir_error [
        | some e ↦ record { disks = disk ∷ []; error = some e }
        | none ↦ elim faults.create_error [
          | some e ↦ record { disks = disk ∷ []; error = some e }
          | none ↦ elim faults.chmod_error [
            | some e ↦ abort faults [] created e
            | none ↦ write_and_rename faults (codec.encode (versioned state)) created
          ]
        ]
      ]
    ]
