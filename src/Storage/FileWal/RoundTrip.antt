-- ===== src/Storage/FileWal/RoundTrip.antt =====
-- What was appended to the log file is what Load reads.
use dsend.Base.{
  take-all, ℕ, zero, suc, ◌<◌, ◌≤◌, Bool, true, false, not, ◌||◌, none, some, List, [], ◌∷◌, ◌++◌,
  ◌≡◌, refl, sym, ap, subst, ◌∙◌, arith, inl, inr, length, length-append, take, min, nat_eq,
  append_assoc, All, All-append, if_cases, Option-cases,
}
use dsend.Model.{Record}
use dsend.Storage.{RecoveredState, empty_state, apply_record, replay_from, replay}
use dsend.Storage.FileWal.{
  Json, IsJson, FileWal, WriteOutcome, newline, opened, is_untyped, append, write_record,
  load_rounds, load, apply_entry,
}

-- A write that reports no error has written all.
all_written :
    (written size : ℕ) (write_failed : Bool)
    → (write_failed || not (nat_eq (min written size) size)) ≡ false
    → size ≤ written
all_written written size write_failed fine = ground arith

take-front : (n : ℕ) (xs ys : List ℕ) → n ≤ length xs → take n (xs ++ ys) ≡ take n xs
take-front zero xs ys h = refl
take-front (suc n) [] ys h = absurd (omega (arith, h))
take-front (suc n) (x ∷ xs) ys h = ap (λ l. x ∷ l) (take-front n xs ys (omega (arith, h)))

module _ {json : Json} (laws : IsJson json) where
  -- The bytes are the lines of the records.
  pub data Lines : List Record → List ℕ → Type 0 where
    no_line : Lines [] []
    line :
        {r : Record} {bytes : List ℕ} {rs : List Record} {rest : List ℕ}
        → json.marshal r ≡ some bytes
        → Lines rs rest
        → Lines (r ∷ rs) (bytes ++ newline ∷ rest)

  -- The broker writes no record without a type.
  abbrev pub Typed : Record → Type 0
  Typed r = is_untyped r.type ≡ false

  pub Lines-append :
      {r : Record} {bytes : List ℕ} {rs : List Record} {file : List ℕ}
      → json.marshal r ≡ some bytes
      → Lines rs file
      → Lines (rs ++ r ∷ []) (file ++ (bytes ++ newline ∷ []))
  Lines-append e no_line = line e no_line
  Lines-append {r} {bytes} e (line {r = s} {bytes = first} {rs = rs} {rest = rest} f l) =
      subst (Lines (s ∷ rs ++ r ∷ []))
        (sym (append_assoc first (newline ∷ rest) (bytes ++ newline ∷ [])))
        (line f (Lines-append e l))

  -- The loop reads a record's line.
  one_round :
      (n : ℕ) (r : Record) (bytes rest : List ℕ) (state : RecoveredState)
      → json.marshal r ≡ some bytes
      → Typed r
      → load_rounds (suc n) json (bytes ++ newline ∷ rest) state
        ≡ load_rounds n json (newline ∷ rest) (apply_record state r)
  unfolding load_rounds apply_entry
  one_round n r bytes rest state e typed =
      rw (laws.decode_value r bytes rest e, laws.record_of-marshal r bytes e, typed, load_rounds)
        refl

  -- A newline in front changes nothing.
  skip :
      (n : ℕ) (bytes : List ℕ) (state : RecoveredState)
      → load_rounds n json (newline ∷ bytes) state ≡ load_rounds n json bytes state
  unfolding load_rounds
  skip zero bytes state = refl
  skip (suc n) bytes state = rw (laws.decode_newline bytes, load_rounds) refl

  rounds_lem :
      {rs : List Record} {file : List ℕ} (n : ℕ) (state : RecoveredState)
      → Lines rs file
      → All Typed rs
      → length rs < n
      → load_rounds n json file state ≡ some (replay_from state rs)
  unfolding load_rounds replay_from
  rounds_lem zero state l typed enough = absurd (omega (arith, enough))
  rounds_lem (suc n) state no_line typed enough = rw (laws.decode_end, load_rounds) refl
  rounds_lem (suc n) state (line {r = r} {bytes = bytes} {rs = rs} {rest = rest} e l) typed enough =
      one_round n r bytes rest state e typed.0
      ∙ skip n rest (apply_record state r)
      ∙ rounds_lem n (apply_record state r) l typed.1 (omega (arith, enough))

  -- A line has at least its newline.
  length-Lines : {rs : List Record} {file : List ℕ} → Lines rs file → length rs ≤ length file
  length-Lines no_line = omega arith
  length-Lines (line {bytes = bytes} {rest = rest} e l) =
      omega (arith, length-append bytes (newline ∷ rest), length-Lines l)

  pub load_lem :
      {rs : List Record} {file : List ℕ}
      → Lines rs file
      → All Typed rs
      → load json (opened file) ≡ some (replay rs)
  unfolding load replay
  load_lem {rs} {file} l typed =
      rounds_lem (suc (length file)) empty_state l typed (omega (arith, length-Lines l))

  -- An Append that reports success has written the whole line.
  pub appended :
      {rs : List Record} (f : FileWal) (r : Record) (outcome : WriteOutcome)
      → Lines rs f.contents
      → (append json f r outcome).1 ≡ true
      → Lines (rs ++ r ∷ []) (append json f r outcome).0.contents
  unfolding append write_record
  appended {rs} f r outcome l =
      let P : FileWal × Bool → Type 0 = λ o. o.1 ≡ true → Lines (rs ++ r ∷ []) o.0.contents in
      if_cases P f.closed (λ _ ok. cc ok)
        (λ _. elim (Option-cases (json.marshal r)) [
          | inl e ↦ rw (e, write_record) (λ ok. cc ok)
          | inr (bytes, e) ↦
              let whole = bytes ++ newline ∷ [] in
              rw (e, write_record)
                (if_cases P
                  (outcome.write_failed
                    || not (nat_eq (min outcome.written (length whole)) (length whole)))
                  (λ _ ok. cc ok)
                  (λ fine _.
                    rw
                      (take-all outcome.written whole
                        (all_written outcome.written (length whole) outcome.write_failed fine))
                      (Lines-append e l)))
        ])

  -- A log file with the lines of typed records, and an Append of another that reports success: Load reads
  -- from the file what the replay of the records, the new one last, gives.
  pub load-append :
      (rs : List Record) (f : FileWal) (r : Record) (outcome : WriteOutcome)
      → Lines rs f.contents
      → All Typed rs
      → Typed r
      → (append json f r outcome).1 ≡ true
      → load json (opened (append json f r outcome).0.contents) ≡ some (replay (rs ++ r ∷ []))
  load-append rs f r outcome l typed typed_r ok =
      load_lem (appended f r outcome l ok) (All-append Typed rs (r ∷ []) typed (typed_r, tt))

  -- The lines with a piece of another behind them.
  cut_rounds :
      {rs : List Record} {file : List ℕ} (n : ℕ) (state : RecoveredState) (r : Record)
      (bytes : List ℕ) (written : ℕ)
      → Lines rs file
      → All Typed rs
      → json.marshal r ≡ some bytes
      → 0 < written
      → written < length bytes
      → load_rounds n json (file ++ take written bytes) state ≡ none
  unfolding load_rounds
  cut_rounds zero state r bytes written l typed e some_bytes cut = refl
  cut_rounds (suc n) state r bytes written no_line typed e some_bytes cut =
      rw (laws.decode_cut r bytes written e some_bytes cut, load_rounds) refl
  cut_rounds (suc n) state r bytes written
        (line {r = s} {bytes = first} {rs = rs} {rest = rest} f l) typed e some_bytes cut =
      ap (λ b. load_rounds (suc n) json b state)
        (append_assoc first (newline ∷ rest) (take written bytes))
      ∙ one_round n s first (rest ++ take written bytes) state f typed.0
      ∙ skip n (rest ++ take written bytes) (apply_record state s)
      ∙ cut_rounds n (apply_record state s) r bytes written l typed.1 e some_bytes cut

  -- A log file with the lines of typed records, and an Append of which a part, but not all, of the bytes
  -- of the record reach the file: Append reports an error, and Load fails on the file.
  pub load_cut :
      (rs : List Record) (f : FileWal) (r : Record) (bytes : List ℕ) (outcome : WriteOutcome)
      → Lines rs f.contents
      → All Typed rs
      → f.closed ≡ false
      → json.marshal r ≡ some bytes
      → 0 < outcome.written
      → outcome.written < length bytes
      → ((append json f r outcome).1 ≡ false)
        × (load json (opened (append json f r outcome).0.contents) ≡ none)
  unfolding load append
  load_cut rs f r bytes outcome l typed is_open e some_bytes cut =
      let P : FileWal × Bool → Type 0 =
        λ o. (o.1 ≡ false) × (load json (opened o.0.contents) ≡ none) in
      let whole = bytes ++ newline ∷ [] in
      rw (is_open, e, append, write_record)
        (if_cases P
          (outcome.write_failed || not (nat_eq (min outcome.written (length whole)) (length whole)))
          (λ _. (
            refl,
            rw (take-front outcome.written bytes (newline ∷ []) (omega (arith, cut)))
                (cut_rounds _ empty_state r bytes outcome.written l typed e some_bytes cut),
          ))
          (λ fine. absurd (
            omega (
              arith,
              all_written outcome.written (length whole) outcome.write_failed fine,
              length-append bytes (newline ∷ []),
              cut,
            ))))

  -- A log file with the lines of typed records, and an Append of another whose bytes all reach the file
  -- while Sync fails: Append reports an error, yet Load finds the record.
  pub load_unsynced :
      (rs : List Record) (f : FileWal) (r : Record) (bytes : List ℕ) (outcome : WriteOutcome)
      → Lines rs f.contents
      → All Typed rs
      → Typed r
      → f.closed ≡ false
      → json.marshal r ≡ some bytes
      → length bytes < outcome.written
      → outcome.sync_failed ≡ true
      → ((append json f r outcome).1 ≡ false)
        × (load json (opened (append json f r outcome).0.contents) ≡ some (replay (rs ++ r ∷ [])))
  unfolding append
  load_unsynced rs f r bytes outcome l typed typed_r is_open e all_bytes unsynced =
      let whole = bytes ++ newline ∷ [] in
      let found : load json (opened (f.contents ++ take outcome.written whole))
          ≡ some (replay (rs ++ r ∷ [])) =
        rw
          (take-all outcome.written whole
            (omega (arith, length-append bytes (newline ∷ []), all_bytes)))
          (load_lem (Lines-append e l) (All-append Typed rs (r ∷ []) typed (typed_r, tt))) in
      rw (is_open, e, append, write_record)
        (if_cases
          (λ (o : FileWal × Bool).
            (o.1 ≡ false) × (load json (opened o.0.contents) ≡ some (replay (rs ++ r ∷ []))))
          (outcome.write_failed || not (nat_eq (min outcome.written (length whole)) (length whole)))
          (λ _. (refl, found)) (λ _. (rw unsynced refl, found)))
