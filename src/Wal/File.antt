-- ===== src/Wal/File.antt =====
-- The file under the log, as std::fs::File moves it: what a write or a change of length does to its
-- bytes and its cursor.
use trust_ledger.Common.{ℕ, ◌+◌, ◌-◌, Bool, true, Option, none, ◌++◌, take, drop, length, replicate}
use trust_ledger.Wal.Bytes.{Bytes}

pub record File : Type 0 where
  pub content : Bytes
  pub cursor : ℕ

-- How the calls of the operating system turn out in one operation; `write_fails` is how many bytes
-- a write that fails has written.
pub record Disk : Type 0 where
  pub open_ok : Bool
  pub lock_ok : Bool
  pub metadata_ok : Bool
  pub write_fails : Option ℕ
  pub sync_ok : Bool
  pub set_len_ok : Bool
  pub seek_ok : Bool

abbrev pub working : Disk
working = record {
  open_ok = true;
  lock_ok = true;
  metadata_ok = true;
  write_fails = none;
  sync_ok = true;
  set_len_ok = true;
  seek_ok = true;
}

-- A file is cut off or filled with zeros.
abbrev pub set_len : ℕ → File → File
set_len n file =
    let content = file.content in
    record { content = take n content ++ replicate (n - length content) 0; cursor = file.cursor }

abbrev pub seek : ℕ → File → File
seek n file = record { content = file.content; cursor = n }

-- Writing at the cursor, over what stands there; a gap before the cursor is filled with zeros.
abbrev pub write_all : Bytes → File → File
write_all bytes file =
    let content = file.content in
    let at = file.cursor in
    record {
      content =
          take at content
          ++ replicate (at - length content) 0
          ++ bytes
          ++ drop (at + length bytes) content;
      cursor = at + length bytes;
    }
