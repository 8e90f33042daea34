-- ===== src/Wal/Written.antt =====
-- The steps of an append (crates/wal/src/wal.rs): the payloads are validated, the file is written,
-- and a failed write is taken back.
use trust_ledger.Common.{
  ℕ, ◌+◌, ◌-◌, ◌<◌, ◌≡◌, ◌⊎◌, refl, sym, ap, ◌∙◌, Bool, true, none, some, List, [], ◌∷◌, ◌++◌, take,
  drop, length, ltb, ltb→ge, ge→ltb, lt→ltb, Bool-cases, Option-cases, inl, inr, arith, take_exact,
  drop_all, take_all, append-nil, take-length, length-append, not, ◌&&◌,
}
use trust_ledger.Wal.Bytes.{Bytes, u32_mod, u64_mod}
use trust_ledger.Wal.File.{File, Disk, write_all, set_len}
use trust_ledger.Wal.Record.{frame_len, ok, err, io, payload_too_large, WalError}
use trust_ledger.Wal.Committed.{Fits, fits_nil, fits_cons, frames_len}
use trust_ledger.Wal.Append.{validate, write, roll_back}

-- Payloads within the bounds are accepted, and the lengths of their frames added up.
validate-Fits :
    {max : ℕ} (total : ℕ) {payloads : List Bytes}
    → Fits max payloads
    → total + frames_len payloads < u64_mod
    → validate max total payloads ≡ ok (total + frames_len payloads)
unfolding validate frames_len
validate-Fits total fits_nil h = ap ok (omega arith)
validate-Fits {max} total (fits_cons p ps fit word f) h =
    let again = validate-Fits (total + frame_len (length p)) f (omega arith) in
    rw (ge→ltb max (length p) fit, lt→ltb (total + frame_len (length p)) u64_mod (omega arith))
      (again ∙ ap ok (omega arith))

-- Any payloads are accepted or refused, and those that are accepted are within the bounds.
pub validate-cases :
    (max total : ℕ) (payloads : List Bytes)
    → max < u32_mod
    → ((e : WalError) × (validate max total payloads ≡ err e))
      ⊎ ((n : ℕ) × (validate max total payloads ≡ ok n) × Fits max payloads)
unfolding validate
validate-cases max total [] h = inr (total, refl, fits_nil)
validate-cases max total (p ∷ ps) h = elim (Bool-cases (ltb max (length p))) [
  | inl large ↦ inl (payload_too_large (length p) max, rw large refl)
  | inr fit ↦ elim (Bool-cases (ltb (total + frame_len (length p)) u64_mod)) [
    | inr over ↦ inl (payload_too_large 18446744073709551615 max, rw (fit, over) refl)
    | inl within ↦ elim (validate-cases max (total + frame_len (length p)) ps h) [
      | inl (e, refused) ↦ inl (e, rw (fit, within) refused)
      | inr (n, accepted, fits) ↦
          let small = ltb→ge max (length p) fit in
          inr (n, rw (fit, within) accepted, fits_cons p ps small (omega arith) fits)
    ]
  ]
]

-- What is written at the end of a file is appended, and cut off again.
write_all-end :
    (bytes : Bytes) (file : File)
    → file.cursor ≡ length file.content
    → write_all bytes file
      ≡ record { content = file.content ++ bytes; cursor = file.cursor + length bytes }
write_all-end bytes file h =
    let content = file.content in
    let at = file.cursor in
    let front : take at content ≡ content = take_all at content (omega arith) in
    let gap : at - length content ≡ 0 = omega arith in
    let behind : drop (at + length bytes) content ≡ [] =
      drop_all (at + length bytes) content (omega arith) in
    rw (front, gap, behind, append-nil content, append-nil (content ++ bytes)) refl

-- A file with some bytes more.
abbrev pub appended : File → Bytes → File
appended file bytes = record {
  content = file.content ++ bytes;
  cursor = file.cursor + length bytes;
}

pub set_len-appended :
    (n : ℕ) (file : File) (bytes : Bytes)
    → n ≡ length file.content
    → (set_len n (appended file bytes)).content ≡ file.content
set_len-appended n file bytes h =
    let content = file.content in
    let front : take n (content ++ bytes) ≡ content = take_exact content bytes (sym h) in
    let gap : n - length (content ++ bytes) ≡ 0 = omega (arith, length-append content bytes) in
    rw (front, gap, append-nil content) refl

pub roll_back-end :
    (disk : Disk) (n : ℕ) (file : File) (bytes : Bytes)
    → disk.set_len_ok ≡ true
    → disk.seek_ok ≡ true
    → n ≡ length file.content
    → roll_back disk n (appended file bytes) ≡ record { content = file.content; cursor = n }
roll_back-end disk n file bytes hl hs h =
    rw (hl, hs)
      (ap (λ content. record { content = content; cursor = n }) (set_len-appended n file bytes h))

-- Either everything is written, or some of it before a call fails.
pub write-cases :
    (disk : Disk) (sync : Bool) (buf : Bytes) (file : File)
    → file.cursor ≡ length file.content
    → (write disk sync buf file ≡ (none, appended file buf))
      ⊎ ((e : WalError) × (n : ℕ) × (write disk sync buf file
            ≡ (some e, appended file (take n buf))))
write-cases disk sync buf file h = elim (Option-cases disk.write_fails) [
  | inr (n, fails) ↦ inr (io "write_all", n, rw (fails, write_all-end (take n buf) file h) refl)
  | inl writes ↦ elim (Bool-cases (sync && not disk.sync_ok)) [
    | inl fails ↦
        let whole = take-length buf in
        inr (io "sync_data", length buf, rw (writes, fails, write_all-end buf file h, whole) refl)
    | inr flushes ↦ inl (rw (writes, flushes, write_all-end buf file h) refl)
  ]
]
