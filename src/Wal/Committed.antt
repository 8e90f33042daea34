-- ===== src/Wal/Committed.antt =====
-- What a log file holds when every append came through: the frames of the payloads, numbered from
-- 0 (crates/wal/src/wal.rs).
use trust_ledger.Common.{
  ℕ, zero, suc, ◌+◌, ◌-◌, ◌≤◌, ◌<◌, ◌≡◌, refl, sym, ap, ◌∙◌, List, [], ◌∷◌, ◌++◌, take, drop,
  length, ltb, if◌then◌else◌, arith, append_assoc, length-append, take-append-drop, take_exact,
  Bool-cases, inl, inr, ltb→ge,
}
use trust_ledger.Wal.Bytes.{Bytes, Checksum, u32_mod}
use trust_ledger.Wal.Record.{Record, frame, frame_len, magic, version}
use trust_ledger.Wal.Record.RoundTrip.{length-frame}
use trust_ledger.Wal.Log.{Wal, WalOptions}

-- Payloads that may be logged.
pub data Fits (max : ℕ) : List Bytes → Type 0 where
  fits_nil : Fits max []
  fits_cons :
      (payload : Bytes) (payloads : List Bytes)
      → length payload ≤ max
      → length payload < u32_mod
      → Fits max payloads
      → Fits max (payload ∷ payloads)

-- How many bytes their frames take.
unfoldable pub frames_len : List Bytes → ℕ
frames_len [] = 0
frames_len (payload ∷ payloads) = frame_len (length payload) + frames_len payloads

-- How many whole frames stand in the first bytes.
unfoldable pub whole_frames : ℕ → List Bytes → ℕ
whole_frames k [] = 0
whole_frames k (payload ∷ payloads) =
    let rest = whole_frames (k - frame_len (length payload)) payloads in
    if ltb k (frame_len (length payload)) then 0 else suc rest

-- The records that reading gives back.
unfoldable pub records : ℕ → List Bytes → List Record
records seq [] = []
records seq (payload ∷ payloads) =
    record { seq = seq; payload = payload } ∷ records (seq + 1) payloads

module _ (checksum : Checksum) where
  -- Their frames, from a sequence number on.
  unfoldable pub frames : ℕ → List Bytes → Bytes
  frames seq [] = []
  frames seq (payload ∷ payloads) =
      frame checksum magic version seq payload ++ frames (seq + 1) payloads

  pub length-frames :
      (seq : ℕ) (payloads : List Bytes) → length (frames seq payloads) ≡ frames_len payloads
  unfolding frames frames_len
  length-frames seq [] = refl
  length-frames seq (payload ∷ payloads) =
      let f = frame checksum magic version seq payload in
      omega (
        arith,
        length-append f (frames (seq + 1) payloads),
        length-frame checksum magic version seq payload,
        length-frames (seq + 1) payloads,
      )

  pub frames-append :
      (seq : ℕ) (ps qs : List Bytes)
      → frames seq (ps ++ qs) ≡ frames seq ps ++ frames (seq + length ps) qs
  unfolding frames
  frames-append seq [] qs = ap (λ n. frames n qs) (omega arith)
  frames-append seq (payload ∷ ps) qs =
      let f = frame checksum magic version seq payload in
      ap (λ bytes. f ++ bytes)
        (frames-append (seq + 1) ps qs ∙ ap (λ n. frames (seq + 1) ps ++ frames n qs) (omega arith))
      ∙ sym (append_assoc f _ _)

  -- The first payloads have the first frames.
  pub take-frames :
      (seq n : ℕ) (ps : List Bytes)
      → take (frames_len (take n ps)) (frames seq ps) ≡ frames seq (take n ps)
  take-frames seq n ps =
      let front = take n ps in
      ap (λ qs. take (frames_len front) (frames seq qs)) (sym (take-append-drop n ps))
      ∙ ap (take (frames_len front)) (frames-append seq front (drop n ps))
      ∙ take_exact (frames seq front) _ (length-frames seq front)

  -- The log that opening such a file gives.
  abbrev pub opened : WalOptions → List Bytes → Wal
  opened options payloads = record {
    file = record { content = frames 0 payloads; cursor = frames_len payloads };
    next_seq = length payloads;
    committed_end = frames_len payloads;
    options = options;
  }

  -- A log whose file holds the frames of these payloads, its cursor behind them.
  pub record IsCommitted (payloads : List Bytes) (wal : Wal) : Type 0 where
    pub content : wal.file.content ≡ frames 0 payloads
    pub cursor : wal.file.cursor ≡ wal.committed_end
    pub committed_end : wal.committed_end ≡ frames_len payloads
    pub next_seq : wal.next_seq ≡ length payloads
    pub fits : Fits wal.options.max_record_payload_len payloads

-- Each frame takes more than one byte, so the numbers are smaller than the log is long.
pub length_le_frames_len : (payloads : List Bytes) → length payloads ≤ frames_len payloads
unfolding frames_len
length_le_frames_len [] = omega arith
length_le_frames_len (payload ∷ payloads) = omega (arith, length_le_frames_len payloads)

pub frames_len-append : (ps qs : List Bytes) → frames_len (ps ++ qs) ≡ frames_len ps + frames_len qs
unfolding frames_len
frames_len-append [] qs = omega arith
frames_len-append (p ∷ ps) qs = omega (arith, frames_len-append ps qs)

pub Fits-append : {max : ℕ} {ps qs : List Bytes} → Fits max ps → Fits max qs → Fits max (ps ++ qs)
Fits-append fits_nil h = h
Fits-append (fits_cons p ps a b f) h = fits_cons p (ps ++ _) a b (Fits-append f h)

pub Fits-take : {max : ℕ} {ps : List Bytes} (n : ℕ) → Fits max ps → Fits max (take n ps)
Fits-take zero f = fits_nil
Fits-take (suc n) fits_nil = fits_nil
Fits-take (suc n) (fits_cons p ps a b f) = fits_cons p (take n ps) a b (Fits-take n f)

-- The whole frames among the first bytes do not reach beyond them.
pub whole_frames_le : (k : ℕ) (ps : List Bytes) → frames_len (take (whole_frames k ps) ps) ≤ k
unfolding frames_len whole_frames
whole_frames_le k [] = elim (whole_frames k []) as (λ n. frames_len (take n []) ≤ k) [
  | zero ↦ omega arith
  | suc n ↦ omega arith
]
whole_frames_le k (p ∷ ps) =
    let again = whole_frames_le (k - frame_len (length p)) ps in
    elim (Bool-cases (ltb k (frame_len (length p)))) [
      | inl short ↦ rw short (omega arith)
      | inr full ↦ rw full (omega (arith, ltb→ge k (frame_len (length p)) full))
    ]

pub take-frames_len_le : (n : ℕ) (ps : List Bytes) → frames_len (take n ps) ≤ frames_len ps
unfolding frames_len
take-frames_len_le zero ps = omega arith
take-frames_len_le (suc n) [] = omega arith
take-frames_len_le (suc n) (p ∷ ps) = omega (arith, take-frames_len_le n ps)
