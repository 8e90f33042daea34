-- ===== src/Wal/Recover.antt =====
-- What opening a log finds (crates/wal/src/wal.rs): after a crash, the file holds the first bytes
-- of what was written.
use trust_ledger.Common.{
  ℕ, zero, suc, ◌+◌, ◌-◌, ◌≤◌, ◌<◌, ◌≡◌, refl, sym, ap, ◌∙◌, false, some, List, [], ◌∷◌, ◌++◌, take,
  length, ltb, ltb→lt, ltb→ge, Bool-cases, inl, inr, arith, ==-refl, take_all, take-append_le,
  take-append_ge, length-append,
}
use trust_ledger.Wal.Bytes.{Bytes, Checksum, u64_mod}
use trust_ledger.Wal.Record.{next_record, frame, frame_len, magic, version, ok}
use trust_ledger.Wal.Record.RoundTrip.{next_record-frame, length-frame}
use trust_ledger.Wal.Record.Torn.{next_record-cut}
use trust_ledger.Wal.Committed.{Fits, fits_nil, fits_cons, frames_len, whole_frames, frames}
use trust_ledger.Wal.Log.{Scan, scan, on_step}

-- The loop's variables behind some more records.
abbrev pub scanned : ℕ → ℕ → ℕ → List Bytes → Scan
scanned seq records last payloads = record {
  next_seq = seq + length payloads;
  verified_records = records + length payloads;
  verified_end = last + frames_len payloads;
}

Scan-eq :
    {a a' b b' c c' : ℕ}
    → a ≡ a'
    → b ≡ b'
    → c ≡ c'
    → ◌≡◌ {A = Scan}
        (record { next_seq = a; verified_records = b; verified_end = c })
        (record { next_seq = a'; verified_records = b'; verified_end = c' })
Scan-eq p q r = rw (p, q, r) refl

scanned-none :
    (seq records last : ℕ)
    → scanned seq records last []
      ≡ record { next_seq = seq; verified_records = records; verified_end = last }
unfolding frames_len
scanned-none seq records last = Scan-eq (omega arith) (omega arith) (omega arith)

-- From the start of the log.
pub scanned-start :
    (ps : List Bytes)
    → scanned 0 0 0 ps
      ≡ record { next_seq = length ps; verified_records = length ps; verified_end = frames_len ps }
scanned-start ps = Scan-eq (omega arith) (omega arith) (omega arith)

scanned-one :
    (seq records last : ℕ) (p : Bytes) (ps : List Bytes)
    → scanned (seq + 1) (records + 1) (last + frame_len (length p)) ps
      ≡ scanned seq records last (p ∷ ps)
unfolding frames_len
scanned-one seq records last p ps = Scan-eq (omega arith) (omega arith) (omega arith)

module _ (checksum : Checksum) (max : ℕ) where
  -- An empty reader ends the loop.
  scan-empty : (fuel : ℕ) (s : Scan) → 0 < fuel → scan checksum max fuel s [] ≡ some (ok s)
  unfolding scan next_record
  scan-empty zero s h = elim h [ ]
  scan-empty (suc fuel) s h = refl

  -- So does a frame that is cut off.
  scan-torn :
      (fuel k seq : ℕ) (s : Scan) (payload : Bytes)
      → 0 < fuel
      → seq < u64_mod
      → Fits max (payload ∷ [])
      → k < frame_len (length payload)
      → scan checksum max fuel s (take k (frame checksum magic version seq payload)) ≡ some (ok s)
  unfolding scan
  scan-torn zero k seq s payload h hs f hk = elim h [ ]
  scan-torn (suc fuel) zero seq s payload h hs f hk = scan-empty (suc fuel) s h
  scan-torn (suc fuel) (suc k) seq s payload h hs (fits_cons _ _ fit word nil) hk =
      let (rest, torn) =
        next_record-cut checksum seq max (suc k) false payload hs fit word (omega arith) hk in
      ap (on_step (scan checksum max fuel) s) torn

  -- The loop finds the whole frames among the first bytes of a log, and stops behind them.
  pub scan-prefix :
      (fuel k seq records last : ℕ) (payloads : List Bytes)
      → Fits max payloads
      → seq + length payloads ≤ u64_mod
      → length (take k (frames checksum seq payloads)) < fuel
      → scan checksum max fuel
          (record { next_seq = seq; verified_records = records; verified_end = last })
          (take k (frames checksum seq payloads))
        ≡ some (ok (scanned seq records last (take (whole_frames k payloads) payloads)))
  unfolding scan frames frames_len whole_frames
  scan-prefix fuel k seq records last [] f hs h =
      let nothing : take {A = ℕ} k [] ≡ [] = take_all k [] (omega arith) in
      rw nothing (
        scan-empty fuel _ (omega arith)
        ∙ ap (λ s. some (ok s)) (sym (scanned-none seq records last)))
  scan-prefix zero k seq records last (p ∷ ps) f hs h = elim h [ ]
  scan-prefix (suc fuel) k seq records last (p ∷ ps) (fits_cons _ _ fit word f) hs h =
      let bytes = frame checksum magic version seq p in
      let rest = frames checksum (seq + 1) ps in
      let len = frame_len (length p) in
      let size = length-frame checksum magic version seq p in
      elim (Bool-cases (ltb k len)) [
        | inl short ↦
            let part : take k (bytes ++ rest) ≡ take k bytes =
              take-append_le k bytes rest (omega (arith, ltb→lt k len short)) in
            rw short (
              ap (scan checksum max (suc fuel) _) part
              ∙ scan-torn (suc fuel) k seq _ p (omega arith) (omega arith)
                  (fits_cons p [] fit word fits_nil) (ltb→lt k len short)
              ∙ ap (λ s. some (ok s)) (sym (scanned-none seq records last)))
        | inr full ↦
            let reader = take (k - len) rest in
            let parts : take k (bytes ++ rest) ≡ bytes ++ reader =
              take-append_ge k bytes rest (omega (arith, ltb→ge k len full))
              ∙ ap (λ n. bytes ++ take (k - n) rest) size in
            let step =
              ap (next_record checksum max false) parts
              ∙ next_record-frame checksum seq max false p reader (omega arith) fit word in
            let shorter : length reader < fuel =
              omega (arith, ap length parts, length-append bytes reader) in
            let again =
              scan-prefix fuel (k - len) (seq + 1) (records + 1) (last + len) ps f (omega arith)
                shorter in
            rw (full, step, ==-refl seq)
              (again ∙ ap (λ s. some (ok s)) (scanned-one seq records last p _))
      ]
