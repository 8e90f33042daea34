-- ===== src/Wal/Terminate.antt =====
-- Reading a log ends: every record that is found takes bytes off the reader (crates/wal/src).
use trust_ledger.Common.{
  ℕ, zero, suc, ◌+◌, ◌-◌, ◌≤◌, ◌<◌, ◌≡◌, refl, Bool, false, Option, none, some, [], ◌++◌, take,
  drop, length, ltb, ltb→ge, not, ◌==◌, Bool-cases, Option-cases, inl, inr, arith, length-take,
  length-drop, min, subst, if_elim,
}
use trust_ledger.Wal.Bytes.{Bytes, Checksum}
use trust_ledger.Wal.File.{Disk}
use trust_ledger.Wal.Record.{
  ScanStep, found, end, broken, read_payload, read_header, read_body, check_trailer, next_record,
  trailer_len, read_u32_le, chunk_len, WalResult, ok,
}
use trust_ledger.Wal.Log.{Wal, WalOptions, Recovery, Scan, scan, empty_scan, open_log, on_step}

-- A record that was found leaves fewer bytes than there were.
abbrev Shrinks : ℕ → ScanStep × Bytes → Type 0
Shrinks n (found seq len payload, rest) = length rest < n
Shrinks n (end, rest) = 0 ≤ n
Shrinks n (broken, rest) = 0 ≤ n

-- A payload that was read leaves no more bytes than there were.
abbrev Leaves : ℕ → Option (ℕ × Bytes × Bytes) → Type 0
Leaves n none = 0 ≤ n
Leaves n (some (crc, payload, rest)) = length rest ≤ n

Leaves-mono : {m n : ℕ} (read : Option (ℕ × Bytes × Bytes)) → m ≤ n → Leaves m read → Leaves n read
Leaves-mono none h l = omega arith
Leaves-mono (some (crc, payload, rest)) h l = omega arith

-- A result is there.
abbrev IsSome : {A : Type 0} → Option A → Type 0
IsSome {A} o = (x : A) × (o ≡ some x)

module _ (checksum : Checksum) where
  open checksum use {crc32c, crc32c_append}

  read_payload-Leaves :
      (fuel n crc : ℕ) (payload reader : Bytes)
      → Leaves (length reader) (read_payload checksum fuel n crc payload reader)
  unfolding read_payload
  read_payload-Leaves fuel zero crc payload reader = omega arith
  read_payload-Leaves zero (suc n) crc payload reader = omega arith
  read_payload-Leaves (suc fuel) (suc n) crc payload reader =
      let w = min (suc n) chunk_len in
      let got = length (take w reader) in
      elim (Bool-cases (got == 0)) [
        | inl nothing ↦ rw nothing (omega arith)
        | inr something ↦ rw something (
            Leaves-mono
              (read_payload checksum fuel (suc n - got) (crc32c_append crc (take w reader))
                (payload ++ take w reader) (drop w reader))
              (omega (arith, length-drop w reader))
              (read_payload-Leaves fuel (suc n - got) (crc32c_append crc (take w reader))
                (payload ++ take w reader) (drop w reader)))
      ]

  check_trailer-Shrinks :
      (n seq len : ℕ) (fetch : Bool) (read : ℕ × Bytes × Bytes)
      → Leaves n (some read)
      → Shrinks (n + 1) (check_trailer checksum seq len fetch read)
  check_trailer-Shrinks n seq len fetch (crc, payload, reader) h =
      let trailer = take trailer_len reader in
      if_elim (Shrinks (n + 1)) _ _ (ltb (length trailer) trailer_len) (omega arith) (
        if_elim (Shrinks (n + 1)) _ _ (not (crc == read_u32_le trailer 0)) (omega arith)
          (omega (arith, length-drop trailer_len reader)))

  read_body-Shrinks :
      (fetch : Bool) (head reader : Bytes) (fields : ℕ × ℕ)
      → Shrinks (length reader + 1) (read_body checksum fetch head reader fields)
  unfolding read_body
  read_body-Shrinks fetch head reader (seq, len) =
      let leaves = read_payload-Leaves len len (crc32c head) [] reader in
      elim (Option-cases (read_payload checksum len len (crc32c head) [] reader)) [
        | inl nothing ↦ rw (nothing, read_body) (omega arith)
        | inr (read, e) ↦
            let left : Leaves (length reader) (some read) =
              subst (Leaves (length reader)) e leaves in
            rw (e, read_body) (check_trailer-Shrinks (length reader) seq len fetch read left)
      ]

  Shrinks-mono : {m n : ℕ} (step : ScanStep × Bytes) → m ≤ n → Shrinks m step → Shrinks n step
  Shrinks-mono (found seq len payload, rest) h s = omega arith
  Shrinks-mono (end, rest) h s = omega arith
  Shrinks-mono (broken, rest) h s = omega arith

  pub next_record-Shrinks :
      (max : ℕ) (fetch : Bool) (reader : Bytes)
      → Shrinks (length reader) (next_record checksum max fetch reader)
  unfolding next_record
  next_record-Shrinks max fetch reader =
      let head = take 18 reader in
      let behind = drop 18 reader in
      if_elim (Shrinks (length reader)) _ _ (length head == 0) (omega arith)
        (elim (Bool-cases (ltb (length head) 18)) [
          | inl short ↦ rw short (omega arith)
          | inr full ↦ elim (Option-cases (read_header checksum max head)) [
            | inl nothing ↦ rw (full, nothing) (omega arith)
            | inr (fields, e) ↦
                rw (full, e)
                  (Shrinks-mono (read_body checksum fetch head behind fields)
                    (omega (
                      arith,
                      ltb→ge (length head) 18 full,
                      length-take 18 reader,
                      length-drop 18 reader,
                    ))
                    (read_body-Shrinks fetch head behind fields))
          ]
        ])

  -- A round ends if every round on fewer bytes does.
  on_step-total :
      (n : ℕ) (again : Scan → Bytes → Option (WalResult Scan)) (s : Scan) (step : ScanStep × Bytes)
      → Shrinks n step
      → ((s' : Scan) (rest : Bytes)
          → length rest < n
          → (r : WalResult Scan) × (again s' rest ≡ some r))
      → (r : WalResult Scan) × (on_step again s step ≡ some r)
  on_step-total n again s (end, rest) h k = (ok s, refl)
  on_step-total n again s (broken, rest) h k = (ok s, refl)
  on_step-total n again s (found seq len payload, rest) h k =
      if_elim IsSome _ _ (not (seq == s.next_seq)) (_, refl) (k _ rest h)

  scan-total :
      (max fuel : ℕ) (s : Scan) (reader : Bytes)
      → length reader < fuel
      → (r : WalResult Scan) × (scan checksum max fuel s reader ≡ some r)
  unfolding scan
  scan-total max zero s reader h = elim h [ ]
  scan-total max (suc fuel) s reader h =
      on_step-total (length reader) (scan checksum max fuel) s
        (next_record checksum max false reader) (next_record-Shrinks max false reader)
        (λ s' rest less. scan-total max fuel s' rest (omega arith))

  -- Opening any file ends, whatever it holds and however the calls turn out: the rounds that the
  -- model allows the loop are enough.
  pub open_log-total :
      (disk : Disk) (options : WalOptions) (content : Bytes)
      → (r : WalResult (Wal × Recovery) × Bytes) × (open_log checksum disk options content ≡ some r)
  unfolding open_log
  open_log-total disk options content =
      let (result, e) =
        scan-total options.max_record_payload_len (suc (length content)) empty_scan content
          (omega arith) in
      if_elim IsSome _ _ (not disk.open_ok) (_, refl)
        (if_elim IsSome _ _ (not disk.lock_ok) (_, refl) (rw e (_, refl)))
