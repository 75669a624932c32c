-- ===== src/Examples/FileWal.antt =====
-- A log file, with a JSON of one record.
use mathlib.Core.Option.{some-injective}
use native.Mathlib.Decide.{ℕ_discrete}
use dsend.Base.{
  ℕ, zero, suc, ◌<◌, true, false, none, some, List, [], ◌∷◌, ◌++◌, ◌≡◌, refl, sym, ap, subst, arith,
  length, take, nat_eq, if◌then◌else◌, inl, inr, String, ℤ, text_cases,
}
use dsend.Model.{Message, Record, RecordType}
use dsend.Storage.{replay}
use dsend.Storage.FileWal.{
  Json, IsJson, Decoded, eof, bad, value, FileWal, WriteOutcome, newline, append, write_record,
  opened, load,
}
use dsend.Storage.FileWal.RoundTrip.{Lines, no_line, line, load-append, load_cut, load_unsynced}
use dsend.Storage.FileWal.LogFile.{LogFile, log_file, load-log_file}
use dsend.Engine.Broker.Queues.{queue_created_record}

String-discrete : Discrete String
String-discrete x y = elim (text_cases x y) [ inl e ↦ yes e.1 | inr e ↦ no e.1 ]

ℤ-discrete : Discrete ℤ
ℤ-discrete = hlevel (ℕ_discrete)

RecordType-discrete : Discrete RecordType
RecordType-discrete = hlevel (String-discrete)

Message-discrete : Discrete Message
Message-discrete = hlevel (String-discrete, ℕ_discrete, ℤ-discrete)

Record-discrete : Discrete Record
Record-discrete = hlevel (String-discrete, RecordType-discrete, Message-discrete)

abbrev orders_created : Record
orders_created = queue_created_record "orders"

-- `{}`
abbrev braces : List ℕ
braces = 123 ∷ 125 ∷ []

after_brace : List ℕ → Decoded
after_brace [] = bad
after_brace (c ∷ rest) = if nat_eq c 125 then value braces rest else bad

decode_braces : List ℕ → Decoded
decode_braces [] = eof
decode_braces (c ∷ rest) =
    let later = decode_braces rest in
    if nat_eq c newline then later else if nat_eq c 123 then after_brace rest else bad

abbrev small_json : Json
small_json = record {
  marshal = λ r. elim (Record-discrete r orders_created) [ yes _ ↦ some braces | no _ ↦ none ];
  decode = decode_braces;
  record_of = λ _. some orders_created;
  message_of = λ _. none;
}

-- Only one record can be written.
only_one :
    (r : Record) (bytes : List ℕ)
    → small_json.marshal r ≡ some bytes
    → (r ≡ orders_created) × (braces ≡ bytes)
only_one r bytes e =
    elim (Record-discrete r orders_created)
        as (λ d.
          elim d [ yes _ ↦ some braces | no _ ↦ none ] ≡ some bytes
          → (r ≡ orders_created) × (braces ≡ bytes)) [
            | yes p ↦ λ f. (p, some-injective braces bytes f)
            | no _ ↦ λ f. cc f
          ]
      e

-- A brace alone is no value.
cut_brace : (n : ℕ) → 0 < n → n < 2 → decode_braces (take n braces) ≡ bad
unfolding decode_braces after_brace
cut_brace zero some_byte cut = absurd (omega (arith, some_byte))
cut_brace (suc zero) some_byte cut = refl
cut_brace (suc (suc n)) some_byte cut = absurd (omega (arith, cut))

small_json-IsJson : IsJson small_json
unfolding decode_braces after_brace
small_json-IsJson = record {
  decode_end = refl;
  decode_newline = λ rest. refl;
  decode_value = λ r bytes rest e. rw (← (only_one r bytes e).1) refl;
  record_of-marshal = λ r bytes e. ap some (sym (only_one r bytes e).0);
  decode_cut = λ r bytes n e some_bytes cut.
      rw (← (only_one r bytes e).1)
        (cut_brace n some_bytes (subst (λ l. n < length l) (sym (only_one r bytes e).1) cut));
}

orders_written : small_json.marshal orders_created ≡ some braces
orders_written =
    elim (Record-discrete orders_created orders_created)
      as (λ d. elim d [ yes _ ↦ some braces | no _ ↦ none ] ≡ some braces) [
        | yes _ ↦ refl
        | no other ↦ absurd (other refl)
      ]

-- A file with one line.
abbrev one_line : FileWal
one_line = record { contents = braces ++ newline ∷ []; closed = false }

one_line-Lines : Lines small_json-IsJson (orders_created ∷ []) one_line.contents
one_line-Lines = line orders_written no_line

abbrev whole : WriteOutcome
whole = record { written = 3; write_failed = false; sync_failed = false }

abbrev cut_off : WriteOutcome
cut_off = record { written = 1; write_failed = true; sync_failed = false }

written_whole : (append small_json one_line orders_created whole).1 ≡ true
unfolding append write_record
written_whole = rw (orders_written, write_record) refl

load-append_example :
    load small_json (opened (append small_json one_line orders_created whole).0.contents)
    ≡ some (replay (orders_created ∷ orders_created ∷ []))
load-append_example =
    load-append small_json-IsJson (orders_created ∷ []) one_line orders_created whole one_line-Lines
      (refl, tt) refl written_whole

load_cut_example :
    ((append small_json one_line orders_created cut_off).1 ≡ false)
    × (load small_json (opened (append small_json one_line orders_created cut_off).0.contents)
        ≡ none)
load_cut_example =
    load_cut small_json-IsJson (orders_created ∷ []) one_line orders_created braces cut_off
      one_line-Lines (refl, tt) refl orders_written (omega arith) (omega arith)

abbrev unsynced : WriteOutcome
unsynced = record { written = 3; write_failed = false; sync_failed = true }

load_unsynced_example :
    ((append small_json one_line orders_created unsynced).1 ≡ false)
    × (load small_json (opened (append small_json one_line orders_created unsynced).0.contents)
        ≡ some (replay (orders_created ∷ orders_created ∷ [])))
load_unsynced_example =
    load_unsynced small_json-IsJson (orders_created ∷ []) one_line orders_created braces unsynced
      one_line-Lines (refl, tt) refl refl orders_written (omega arith) refl

abbrev log_of_one : LogFile small_json-IsJson
log_of_one = record {
  file = one_line;
  records = orders_created ∷ [];
  lines = one_line-Lines;
  turn = 0;
}

load-log_file_example :
    let (w', ok) = (log_file small_json-IsJson (λ _. true)).append log_of_one orders_created in
    load small_json (opened w'.file.contents)
    ≡ some (replay (if ok then orders_created ∷ orders_created ∷ [] else orders_created ∷ []))
load-log_file_example =
    load-log_file small_json-IsJson (λ _. true) log_of_one orders_created (refl, tt) refl
