-- ===== src/Storage/FileWal/LogFile.antt =====
-- The log file behind the interface of the engine, on a disk where a write that fails leaves no byte
-- behind.
use dsend.Base.{
  ℕ, ◌+◌, Bool, true, false, not, ◌||◌, none, some, List, [], ◌∷◌, ◌++◌, ◌≡◌, ◌⊎◌, refl, sym, ap,
  subst, ◌∙◌, arith, inl, inr, length, length-append, take, take-all, if◌then◌else◌, min, nat_eq,
  append-nil, All, All-append, if_cases, Option-cases,
}
use dsend.Model.{Record}
use dsend.Storage.{Wal, IsWal, replay}
use dsend.Storage.FileWal.{
  Json, IsJson, FileWal, WriteOutcome, newline, append, write_record, load, opened,
}
use dsend.Storage.FileWal.RoundTrip.{Lines, Lines-append, Typed, load_lem}

-- A write of so many bytes, which succeeds or fails as a whole.
abbrev pub outcome_of : Bool → ℕ → WriteOutcome
outcome_of true size = record { written = size; write_failed = false; sync_failed = false }
outcome_of false size = record { written = 0; write_failed = true; sync_failed = false }

-- the number of bytes of a record's line
abbrev pub line_size : Json → Record → ℕ
line_size json r = elim (json.marshal r) [ none ↦ 0 | some bytes ↦ length bytes + 1 ]

module _ {json : Json} (laws : IsJson json) where
  -- The file, with the records that it has lines of, and the number of appends.
  pub record LogFile : Type 0 where
    pub file : FileWal
    pub records : List Record
    pub lines : Lines laws records file.contents
    pub turn : ℕ

  -- The two ends of an Append.
  abbrev Ended : List Record → Record → FileWal × Bool → Type 0
  Ended rs r o =
      ((o.1 ≡ true) × Lines laws (rs ++ r ∷ []) o.0.contents)
      ⊎ ((o.1 ≡ false) × Lines laws rs o.0.contents)

  pub ends :
      (rs : List Record) (f : FileWal) (r : Record) (good : Bool)
      → Lines laws rs f.contents
      → Ended rs r (append json f r (outcome_of good (line_size json r)))
  unfolding append
  ends rs f r good l =
      if_cases (Ended rs r) f.closed (λ _. inr (refl, l))
        (λ _. elim (Option-cases (json.marshal r)) [
          | inl e ↦ rw (e, write_record) (inr (refl, l))
          | inr (bytes, e) ↦
              rw (e, write_record)
                (written bytes e (line_size json r) (rw (e, line_size) refl) good)
        ])
    where
      written :
          (bytes : List ℕ)
          → json.marshal r ≡ some bytes
          → (size : ℕ) → size ≡ length bytes + 1
          → (good : Bool)
          → let outcome = outcome_of good size in
            let whole = bytes ++ newline ∷ [] in
            let f' : FileWal = record f { contents = f.contents ++ take outcome.written whole } in
            Ended rs r (
              if outcome.write_failed
                || not (nat_eq (min outcome.written (length whole)) (length whole))
              then (f', false)
              else (f', not outcome.sync_failed))
      written bytes e size all false = inr (refl, rw append-nil l)
      written bytes e size all true =
          let whole = bytes ++ newline ∷ [] in
          if_cases (Ended rs r) (not (nat_eq (min size (length whole)) (length whole)))
            (λ bad. absurd (ground (arith, length-append bytes (newline ∷ []), all, bad)))
            (λ _. inl (
              refl,
              rw (take-all size whole (omega (arith, all, length-append bytes (newline ∷ []))))
                  (Lines-append laws e l),
            ))

  -- the file after an Append
  pub kept : (w : LogFile) (r : Record) (o : FileWal × Bool) → Ended w.records r o → LogFile
  kept w r o (inl (_, l)) = record {
    file = o.0;
    records = w.records ++ r ∷ [];
    lines = l;
    turn = w.turn + 1;
  }
  kept w r o (inr (_, l)) = record { file = o.0; records = w.records; lines = l; turn = w.turn + 1 }

  kept_records :
      (w : LogFile) (r : Record) (o : FileWal × Bool) (d : Ended w.records r o)
      → (kept w r o d).records ≡ (if o.1 then w.records ++ r ∷ [] else w.records)
  unfolding kept
  kept_records w r o (inl (ok, _)) = rw ok refl
  kept_records w r o (inr (failed, _)) = rw failed refl

  -- what Append returns, on a disk that tells which write succeeds
  abbrev returned : (ℕ → Bool) → LogFile → Record → FileWal × Bool
  returned disk w r = append json w.file r (outcome_of (disk w.turn) (line_size json r))

  unfoldable pub log_file : (ℕ → Bool) → Wal LogFile
  unfolding kept
  log_file disk = record {
    append = λ w r. (
      kept w r (returned disk w r) (ends w.records w.file r (disk w.turn) w.lines),
      (returned disk w r).1,
    );
  }

  -- The file is a log: an Append adds its record, or fails and changes nothing.
  pub log_file-IsWal : (disk : ℕ → Bool) → IsWal (log_file disk)
  unfolding log_file
  log_file-IsWal disk = record {
    log = λ w. w.records;
    append_ok = λ w r ok.
        kept_records w r (returned disk w r) (ends w.records w.file r (disk w.turn) w.lines)
        ∙ rw ok refl;
    append_failed = λ w r failed.
        kept_records w r (returned disk w r) (ends w.records w.file r (disk w.turn) w.lines)
        ∙ rw failed refl;
  }

  -- On a disk where a write succeeds or fails as a whole, a log file with typed records, and an Append of
  -- another: Load then reads what the replay of the records gives, with the new one as the last exactly if
  -- Append has reported success.
  pub load-log_file :
      (disk : ℕ → Bool) (w : LogFile) (r : Record)
      → All (Typed laws) w.records
      → Typed laws r
      → let (w', ok) = (log_file disk).append w r in
        load json (opened w'.file.contents)
        ≡ some (replay (if ok then w.records ++ r ∷ [] else w.records))
  unfolding log_file
  load-log_file disk w r typed typed_r =
      let o = returned disk w r in
      let d = ends w.records w.file r (disk w.turn) w.lines in
      let w' = kept w r o d in
      let same = kept_records w r o d in
      load_lem laws w'.lines (
        subst (All (Typed laws)) (sym same) (
          if_cases (All (Typed laws)) o.1
            (λ _. All-append (Typed laws) w.records (r ∷ []) typed (typed_r, tt)) (λ _. typed)))
      ∙ ap (λ rs. some (replay rs)) same
