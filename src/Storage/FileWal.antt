-- ===== src/Storage/FileWal.antt =====
-- internal/storage/wal.go: the log file. encoding/json and the file system are not part of the
-- repository: `Json` and `WriteOutcome` are what the code uses of them. The channel to the writer
-- goroutine hands over one request at a time, so an append is one step.
pub mod RoundTrip
pub mod LogFile
use dsend.Base.{
  ℕ, zero, suc, ◌<◌, Bool, true, false, not, ◌||◌, Option, none, some, List, [], ◌∷◌, ◌++◌, ◌≡◌,
  length, take, min, nat_eq, if◌then◌else◌,
}
use dsend.Model.{Message, Record, RecordType, untyped}
use dsend.Storage.{RecoveredState, empty_state, apply_record, apply_legacy}

-- What `decoder.Decode(&raw)` finds at the front of the bytes that are left.
pub data Decoded : Type 0 where
  eof : Decoded
  bad : Decoded
  value : List ℕ → List ℕ → Decoded

-- encoding/json: `marshal` and the two targets of `json.Unmarshal`.
pub record Json : Type 0 where
  pub marshal : Record → Option (List ℕ)
  pub decode : List ℕ → Decoded
  pub record_of : List ℕ → Option Record
  pub message_of : List ℕ → Option Message

abbrev pub newline : ℕ
newline = 10

-- The documented behaviour that the log relies on: a marshalled record is one value, which reads back as
-- the record; white space before a value is skipped; a value that is cut off is an error.
pub record IsJson (json : Json) : Type 0 where
  pub decode_end : json.decode [] ≡ eof
  pub decode_newline : (rest : List ℕ) → json.decode (newline ∷ rest) ≡ json.decode rest
  pub decode_value :
      (r : Record) (bytes rest : List ℕ)
      → json.marshal r ≡ some bytes
      → json.decode (bytes ++ newline ∷ rest) ≡ value bytes (newline ∷ rest)
  pub record_of-marshal :
      (r : Record) (bytes : List ℕ) → json.marshal r ≡ some bytes → json.record_of bytes ≡ some r
  pub decode_cut :
      (r : Record) (bytes : List ℕ) (n : ℕ)
      → json.marshal r ≡ some bytes
      → 0 < n
      → n < length bytes
      → json.decode (take n bytes) ≡ bad

-- FileWAL
pub record FileWal : Type 0 where
  pub contents : List ℕ
  pub closed : Bool

-- What the file system does with a write: how many bytes reach the file, and whether Write or Sync
-- report an error.
pub record WriteOutcome : Type 0 where
  pub written : ℕ
  pub write_failed : Bool
  pub sync_failed : Bool

-- writeRecord; the flag is false for an error.
unfoldable pub write_record : Json → FileWal → Record → WriteOutcome → FileWal × Bool
write_record json f r outcome = elim (json.marshal r) [
  | none ↦ (f, false)
  | some bytes ↦
      let line = bytes ++ newline ∷ [] in
      let f' : FileWal = record f { contents = f.contents ++ take outcome.written line } in
      if outcome.write_failed || not (nat_eq (min outcome.written (length line)) (length line))
      then (f', false)
      else (f', not outcome.sync_failed)
]

-- Append
unfoldable pub append : Json → FileWal → Record → WriteOutcome → FileWal × Bool
unfolding write_record
append json f r outcome = if f.closed then (f, false) else write_record json f r outcome

-- Close
unfoldable pub close : FileWal → FileWal
close f = if f.closed then f else record f { closed = true }

abbrev pub is_untyped : RecordType → Bool
is_untyped untyped = true
is_untyped _ = false

-- The effect of one log entry, if it can be read.
unfoldable pub apply_entry : Json → RecoveredState → List ℕ → Record → Option RecoveredState
apply_entry json state raw r =
    if is_untyped r.type
    then elim (json.message_of raw) [
      | none ↦ none
      | some message ↦ some (apply_legacy state message)
    ]
    else some (apply_record state r)

abbrev read_entry : Json → RecoveredState → List ℕ → Option RecoveredState
read_entry json state raw = elim (json.record_of raw) [
  | none ↦ none
  | some r ↦ apply_entry json state raw r
]

-- The loop of Load, over at most `rounds` values. `none` is an error.
unfoldable pub load_rounds : ℕ → Json → List ℕ → RecoveredState → Option RecoveredState
load_rounds zero json bytes state = none
load_rounds (suc rounds) json bytes state = elim (json.decode bytes) [
  | eof ↦ some state
  | bad ↦ none
  | value raw rest ↦ elim (read_entry json state raw) [
    | none ↦ none
    | some state' ↦ load_rounds rounds json rest state'
  ]
]

-- The file as `os.Open` finds it.
pub data Opened : Type 0 where
  missing : Opened
  failed : Opened
  opened : List ℕ → Opened

-- Load. A value takes at least a byte, so the number of bytes bounds the rounds.
unfoldable pub load : Json → Opened → Option RecoveredState
load json missing = some empty_state
load json failed = none
load json (opened bytes) = load_rounds (suc (length bytes)) json bytes empty_state
